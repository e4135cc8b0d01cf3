-- ===== src/Compiler/OneFlow/Capacity.antt =====
-- The tables of a card fit the hardware, and a row stands in the slot that it names.
use packet_wyrm.Base.{
  ℕ, ◌+◌, ◌≡◌, ◌≤◌, ◌<◌, refl, List, [], ◌∷◌, ◌++◌, All, length, length-append, All-append,
  All-map_of, Bool-cases, inl, inr, leb, ok, ok-injective, arith, Bool, ◌&&◌, not,
}
use packet_wyrm.Config.{PortRef}
use packet_wyrm.Config.FlowModel.{Flow}
use packet_wyrm.Compiler.Tables.{
  FlowRow, MapEntry, HashEntry, CardProgram, flow_table_rows, flowid_map_depth, num_rule,
  hash_depth,
}
use packet_wyrm.Compiler.Append.{append_flow}
use packet_wyrm.Compiler.Hash.{hash_words}
use packet_wyrm.Compiler.Row.{make_tx_row, make_rx_row, flag}
use packet_wyrm.Compiler.OneFlow.{classify}
use packet_wyrm.Compiler.Rules.Meaning.{FitsPool}

-- Row `k` of the table, counted from `i`, is row `i + k`.
abbrev pub Numbered : ℕ → List FlowRow → Type 0
Numbered i [] = Unit
Numbered i (r ∷ rs) = (r.local_flow_id ≡ i) × (r.enable ≡ 1) × Numbered (i + 1) rs

-- an entry of the flow-id map, on a card with `n` rows
abbrev pub MapFits : ℕ → MapEntry → Type 0
MapFits n m = (m.flow_id < flowid_map_depth) × (m.local_flow_id < n)

abbrev pub KeyFits : ℕ → HashEntry → Type 0
KeyFits n e = e.local_flow_id < n

pub record CardWell (cp : CardProgram) : Type 0 where
  pub rows : length cp.flow_rows ≤ flow_table_rows
  pub numbered : Numbered 0 cp.flow_rows
  pub maps : All (MapFits (length cp.flow_rows)) cp.map_entries
  pub keys : All (KeyFits (length cp.flow_rows)) cp.hash_entries
  pub key_count : length cp.hash_entries ≤ hash_depth
  pub pool : FitsPool cp
  pub rules : length cp.fc_rules ≤ num_rule

Numbered-append :
    (i : ℕ) (rs : List FlowRow) (r : FlowRow)
    → Numbered i rs
    → r.local_flow_id ≡ i + length rs
    → r.enable ≡ 1
    → Numbered i (rs ++ r ∷ [])
Numbered-append i [] r h e on = (omega arith, on, tt)
Numbered-append i (q ∷ rs) r h e on = (h.0, h.1, Numbered-append (i + 1) rs r h.2 (omega arith) on)

length-append_one {ℓ} : {A : Type ℓ} (xs : List A) (v : A) → length (xs ++ v ∷ []) ≡ length xs + 1
length-append_one xs v = omega (arith, length-append xs (v ∷ []))

pub append_flow-CardWell :
    (r : FlowRow) (cp cp' : CardProgram)
    → CardWell cp
    → length cp.flow_rows < flow_table_rows
    → r.local_flow_id ≡ length cp.flow_rows
    → r.enable ≡ 1
    → append_flow r cp ≡ ok cp'
    → CardWell cp'
unfolding append_flow
append_flow-CardWell r cp cp' w room at on h =
    let more : length (cp.flow_rows ++ r ∷ []) ≡ length cp.flow_rows + 1 =
      length-append_one cp.flow_rows r in
    rw (← ok-injective h) (record {
      rows = omega arith;
      numbered = Numbered-append 0 cp.flow_rows r w.numbered (omega arith) on;
      maps = All-map_of _ _ (λ m p. (p.0, omega arith)) cp.map_entries w.maps;
      keys = All-map_of _ _ (λ e p. omega arith) cp.hash_entries w.keys;
      key_count = w.key_count;
      pool = record { cmps = w.pool.cmps; udfs = w.pool.udfs };
      rules = w.rules;
    })

pub classify-CardWell :
    (f : Flow) (lfid : ℕ) (cp cp' : CardProgram)
    → CardWell cp
    → lfid < length cp.flow_rows
    → classify f lfid cp ≡ ok cp'
    → CardWell cp'
unfolding classify
classify-CardWell f lfid cp cp' w in_table h = elim (Bool-cases f.classify_header) [
  | inl header ↦ elim (Bool-cases (leb hash_depth (length cp.hash_entries))) [
    | inl full ↦ absurd (ground arith)
    | inr room ↦
        let entry : HashEntry = record {
          index = 0;
          key_word = hash_words f;
          local_flow_id = lfid;
        } in
        let e : record cp { hash_entries = cp.hash_entries ++ entry ∷ [] } ≡ cp' = ground arith in
        rw (← e) (record {
          rows = w.rows;
          numbered = w.numbered;
          maps = w.maps;
          keys = All-append _ cp.hash_entries entry w.keys in_table;
          key_count = ground (arith, length-append_one cp.hash_entries entry);
          pool = record { cmps = w.pool.cmps; udfs = w.pool.udfs };
          rules = w.rules;
        })
  ]
  | inr by_map ↦ elim (Bool-cases (leb flowid_map_depth f.id)) [
    | inl outside ↦ absurd (ground arith)
    | inr inside ↦
        let entry : MapEntry = record { flow_id = f.id; local_flow_id = lfid } in
        let e : record cp { map_entries = cp.map_entries ++ entry ∷ [] } ≡ cp' = ground arith in
        rw (← e) (record {
          rows = w.rows;
          numbered = w.numbered;
          maps = All-append _ cp.map_entries entry w.maps (ground arith, in_table);
          keys = w.keys;
          key_count = w.key_count;
          pool = record { cmps = w.pool.cmps; udfs = w.pool.udfs };
          rules = w.rules;
        })
  ]
]

-- the fields of the transmitting row that the slots depend on
pub make_tx_row_fields :
    (tx : PortRef) (lfid : ℕ) (same : Bool) (f : Flow)
    → let r = make_tx_row tx lfid same f in
      (r.local_flow_id ≡ lfid)
      × (r.enable ≡ 1)
      × (r.global_flow_id ≡ f.id)
      × (r.tx_enable ≡ 1)
      × (r.rx_check_enable ≡ flag (same && not f.background))
unfolding make_tx_row
make_tx_row_fields tx lfid same f = ground arith

pub make_rx_row_fields :
    (rx : PortRef) (lfid : ℕ) (t : FlowRow)
    → let r = make_rx_row rx lfid t in
      (r.local_flow_id ≡ lfid)
      × (r.enable ≡ t.enable)
      × (r.global_flow_id ≡ t.global_flow_id)
      × (r.rx_check_enable ≡ 1)
      × (r.tx_enable ≡ 0)
unfolding make_rx_row
make_rx_row_fields rx lfid t = (refl, refl, refl, refl, refl)
