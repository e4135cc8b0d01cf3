-- ===== src/Compiler/OneFlow/Placed.antt =====
-- Where a compiled flow stands: its rows, and its way from the classifier to the row.
use packet_wyrm.Base.{
  ℕ, ◌≡◌, refl, ap, some, true, false, Bool-cases, inl, inr, List, [], ◌∷◌, ◌++◌, length, get_elem?,
  get_elem?-append_end, leb, ok, ok-injective, arith,
}
use packet_wyrm.Config.FlowModel.{Flow}
use packet_wyrm.Compiler.Tables.{
  FlowRow, MapEntry, HashEntry, CardProgram, flowid_map_depth, hash_depth,
}
use packet_wyrm.Compiler.Append.{card_slot, append_flow}
use packet_wyrm.Compiler.Hash.{hash_words}
use packet_wyrm.Compiler.OneFlow.{classify}
use packet_wyrm.Compiler.Growth.{
  IsPrefix-refl, IsPrefix-end, CardGrows, Grows, get_elem?-IsPrefix, entry_slots,
}

-- A row with the property stands in the slot of the card.
pub record HasRow (P : FlowRow → Type 0) (cards : List CardProgram) (id lfid : ℕ) : Type 0 where
  pub card : CardProgram
  pub found : card_slot id cards ≡ some card
  pub row : FlowRow
  pub at : get_elem? card.flow_rows lfid ≡ some row
  pub holds : P row

-- the row transmits the flow; the row checks the flow
abbrev pub Sends : Flow → FlowRow → Type 0
Sends f row = (row.global_flow_id ≡ f.id) × (row.tx_enable ≡ 1)

abbrev pub Checks : Flow → FlowRow → Type 0
Checks f row = (row.global_flow_id ≡ f.id) × (row.rx_check_enable ≡ 1)

-- The flow-id map of the card leads from the flow to the slot.
pub record HasMap (cards : List CardProgram) (id flow lfid : ℕ) : Type 0 where
  pub card : CardProgram
  pub found : card_slot id cards ≡ some card
  pub index : ℕ
  pub entry :
      get_elem? card.map_entries index ≡ some (record { flow_id = flow; local_flow_id = lfid })

-- An entry of the card's hash table leads to the slot.
pub record HasKey (cards : List CardProgram) (id lfid : ℕ) : Type 0 where
  pub card : CardProgram
  pub found : card_slot id cards ≡ some card
  pub index : ℕ
  pub entry : get_elem? (entry_slots card.hash_entries) index ≡ some lfid

pub HasRow-Grows :
    (P : FlowRow → Type 0) (cs cs' : List CardProgram) (id lfid : ℕ)
    → Grows cs cs'
    → HasRow P cs id lfid
    → HasRow P cs' id lfid
HasRow-Grows P cs cs' id lfid g h =
    let (c', found, grows) = g id h.card h.found in
    record {
      card = c';
      found = found;
      row = h.row;
      at = get_elem?-IsPrefix lfid grows.rows h.at;
      holds = h.holds;
    }

pub HasMap-Grows :
    (cs cs' : List CardProgram) (id flow lfid : ℕ)
    → Grows cs cs'
    → HasMap cs id flow lfid
    → HasMap cs' id flow lfid
HasMap-Grows cs cs' id flow lfid g h =
    let (c', found, grows) = g id h.card h.found in
    record {
      card = c';
      found = found;
      index = h.index;
      entry = get_elem?-IsPrefix h.index grows.maps h.entry;
    }

pub HasKey-Grows :
    (cs cs' : List CardProgram) (id lfid : ℕ)
    → Grows cs cs'
    → HasKey cs id lfid
    → HasKey cs' id lfid
HasKey-Grows cs cs' id lfid g h =
    let (c', found, grows) = g id h.card h.found in
    record {
      card = c';
      found = found;
      index = h.index;
      entry = get_elem?-IsPrefix h.index grows.keys h.entry;
    }

pub append_flow-CardGrows :
    (r : FlowRow) (cp cp' : CardProgram) → append_flow r cp ≡ ok cp' → CardGrows cp cp'
unfolding append_flow
append_flow-CardGrows r cp cp' h = rw (← ok-injective h) (record {
  id = refl;
  rows = IsPrefix-end cp.flow_rows r;
  maps = IsPrefix-refl _;
  keys = IsPrefix-refl _;
})

pub append_flow-row :
    (r : FlowRow) (cp cp' : CardProgram)
    → append_flow r cp ≡ ok cp'
    → get_elem? cp'.flow_rows (length cp.flow_rows) ≡ some r
unfolding append_flow
append_flow-row r cp cp' h = rw (← ok-injective h) (get_elem?-append_end cp.flow_rows [] r)

entry_slots-append :
    (es : List HashEntry) (e : HashEntry)
    → entry_slots (es ++ e ∷ []) ≡ entry_slots es ++ e.local_flow_id ∷ []
entry_slots-append [] e = refl
entry_slots-append (d ∷ es) e = ap (λ l. d.local_flow_id ∷ l) (entry_slots-append es e)

-- what the classifier of a card gains for a flow
abbrev pub Gains : Flow → ℕ → CardProgram → CardProgram → Type 0
Gains f lfid cp cp' =
    CardGrows cp cp'
    × (f.classify_header ≡ false
        → (k : ℕ) × (get_elem? cp'.map_entries k
            ≡ some (record { flow_id = f.id; local_flow_id = lfid })))
    × (f.classify_header ≡ true
        → (k : ℕ) × (get_elem? (entry_slots cp'.hash_entries) k ≡ some lfid))

pub classify-Gains :
    (f : Flow) (lfid : ℕ) (cp cp' : CardProgram) → classify f lfid cp ≡ ok cp' → Gains f lfid cp cp'
unfolding classify
classify-Gains f lfid cp cp' h = elim (Bool-cases f.classify_header) [
  | inl header ↦ elim (Bool-cases (leb hash_depth (length cp.hash_entries))) [
    | inl full ↦ absurd (ground arith)
    | inr room ↦
        let entry : HashEntry = record {
          index = 0;
          key_word = hash_words f;
          local_flow_id = lfid;
        } in
        let e : record cp { hash_entries = cp.hash_entries ++ entry ∷ [] } ≡ cp' = ground arith in
        let keys = entry_slots-append cp.hash_entries entry in
        rw (← e) (
          record {
            id = refl;
            rows = IsPrefix-refl _;
            maps = IsPrefix-refl _;
            keys = record { extra = lfid ∷ []; grown = keys };
          },
          λ by_map. cc,
          λ _. (
            length (entry_slots cp.hash_entries),
            rw keys (get_elem?-append_end (entry_slots cp.hash_entries) [] lfid),
          ),
        )
  ]
  | inr by_map ↦ elim (Bool-cases (leb flowid_map_depth f.id)) [
    | inl outside ↦ absurd (ground arith)
    | inr inside ↦
        let entry : MapEntry = record { flow_id = f.id; local_flow_id = lfid } in
        let e : record cp { map_entries = cp.map_entries ++ entry ∷ [] } ≡ cp' = ground arith in
        rw (← e) (
          record {
            id = refl;
            rows = IsPrefix-refl _;
            maps = IsPrefix-end cp.map_entries entry;
            keys = IsPrefix-refl _;
          },
          λ _. (length cp.map_entries, get_elem?-append_end cp.map_entries [] entry),
          λ header. cc,
        )
  ]
]
