-- ===== src/Programming.antt =====
-- `pw_program_card_tables_diag` (sw/libpacketwyrm/src/programming.c): writing a compiled card
-- program into a backend. The arrays of the program are lists, so that none is NULL with a
-- count; the diagnostic text is not kept.
pub mod Registers
pub mod Fits
pub mod Windows
pub mod Content
pub mod Words
pub mod Keys
pub mod Written
pub mod Board
pub mod Calls
use packet_wyrm.Base.{
  ℕ, zero, suc, ◌+◌, ◌*◌, ◌^◌, Option, none, some, Bool, true, false, not, ◌&&◌, ◌||◌, List, [],
  ◌∷◌, ◌++◌, map, length, get_or, any, range_from, bit_and, bit_or, shl, ◌==◌, ltb, leb,
  if◌then◌else◌, ok, err, Status, Error, ◌>>◌, reject_if,
}
use packet_wyrm.Compiler.Tables.{
  FlowRow, MapEntry, FcCmp, FcUdf, FcRule, HashEntry, CardProgram, flow_table_rows,
  flowid_map_depth, num_cmp, num_udf, num_rule, hash_depth, hash_key_words, zero_row,
}
use packet_wyrm.Backend.{CardInfo, BackendOps}

-- the counts and indexes against the fixed capacities, before any write
unfoldable pub precheck : CardProgram → Status
precheck cp = do
  reject_if (ltb flow_table_rows (length cp.flow_rows)) Error.inval
  reject_if (ltb num_cmp (length cp.fc_cmps)) Error.inval
  reject_if (ltb num_udf (length cp.fc_udfs)) Error.inval
  reject_if (ltb num_rule (length cp.fc_rules)) Error.inval
  reject_if (ltb hash_depth (length cp.hash_entries)) Error.inval
  reject_if (any (λ (m : MapEntry). leb flowid_map_depth m.flow_id) cp.map_entries) Error.inval
  reject_if (any (λ (e : HashEntry). leb hash_depth e.index) cp.hash_entries) Error.inval

-- the window map of csr.h
abbrev pub win_flowid_map : ℕ
win_flowid_map = 0x0400

abbrev pub win_fc_cmp : ℕ
win_fc_cmp = 0x2000

abbrev pub win_fc_udf : ℕ
win_fc_udf = 0x2100

abbrev pub win_fc_rule : ℕ
win_fc_rule = 0x2200

abbrev pub win_hash_mask : ℕ
win_hash_mask = 0x2F00

abbrev pub reg_hash_seed : ℕ
reg_hash_seed = 0x2FFC

abbrev pub win_fc_hash : ℕ
win_fc_hash = 0x3000

-- PWFPGA_FLOWID_MAP_VALID and PWFPGA_HASH_CTRL_VALID
abbrev pub valid_bit : ℕ
valid_bit = 2 ^ 31

abbrev pub Write : Type 0
Write = ℕ × ℕ

-- PWFPGA_FC_RULE_W0
unfoldable pub rule_w0 : ℕ → ℕ → ℕ → ℕ → Bool → ℕ
rule_w0 care action egress prio enable =
    bit_or
      (bit_or
        (bit_or (bit_or (bit_and care 0x3FFF) (shl (bit_and action 0x7) 14))
          (shl (bit_and egress 0xF) 17))
        (shl (bit_and prio 0xFF) 21))
      (if enable then valid_bit else 0)

-- The flow-id map: every entry invalidated, then the configured ones.
unfoldable pub map_clears : List Write
map_clears = map (λ i. (win_flowid_map + i * 4, 0)) (range_from 0 flowid_map_depth)

unfoldable pub map_sets : List MapEntry → List Write
map_sets [] = []
map_sets (m ∷ ms) = (win_flowid_map + m.flow_id * 4, bit_or valid_bit m.local_flow_id) ∷ map_sets ms

unfoldable pub cmp_writes : ℕ → List FcCmp → List Write
cmp_writes i [] = []
cmp_writes i (c ∷ cs) =
    (win_fc_cmp + i * 16, c.src)
    ∷ (win_fc_cmp + i * 16 + 4, c.mask)
    ∷ (win_fc_cmp + i * 16 + 8, c.value)
    ∷ cmp_writes (i + 1) cs

unfoldable pub udf_writes : ℕ → List FcUdf → List Write
udf_writes i [] = []
udf_writes i (u ∷ us) =
    (win_fc_udf + i * 16, u.offset)
    ∷ (win_fc_udf + i * 16 + 4, u.mask)
    ∷ (win_fc_udf + i * 16 + 8, u.value)
    ∷ udf_writes (i + 1) us

-- the rule slots from `i` on, `n` of them: the configured ones enabled, the rest disabled
unfoldable pub rule_writes : ℕ → ℕ → List FcRule → List Write
unfolding rule_w0
rule_writes zero i rs = []
rule_writes (suc n) i [] = (win_fc_rule + i * 16, rule_w0 0 0 0 0 false) ∷ rule_writes n (i + 1) []
rule_writes (suc n) i (r ∷ rs) =
    (win_fc_rule + i * 16, rule_w0 r.care r.action r.egress r.priority true)
    ∷ (win_fc_rule + i * 16 + 4, r.local_flow_id)
    ∷ (win_fc_rule + i * 16 + 8, r.logical_if_id)
    ∷ rule_writes n (i + 1) rs

abbrev pub hash_ctrl : ℕ → ℕ
hash_ctrl i = win_fc_hash + i * 64 + 0x2C

unfoldable pub hash_clears : List Write
hash_clears = map (λ i. (hash_ctrl i, 0)) (range_from 0 hash_depth)

-- 11 words from an address on
unfoldable pub word_writes : ℕ → ℕ → List ℕ → List Write
word_writes base w ks = map (λ i. (base + i * 4, get_or ks i 0)) (range_from 0 w)

unfoldable pub entry_writes : List HashEntry → List Write
unfolding word_writes
entry_writes [] = []
entry_writes (e ∷ es) =
    word_writes (win_fc_hash + e.index * 64) hash_key_words e.key_word
    ++ ((hash_ctrl e.index, bit_or valid_bit e.local_flow_id) ∷ entry_writes es)

unfoldable pub hash_sets : CardProgram → List Write
unfolding word_writes entry_writes
hash_sets cp =
    if length cp.hash_entries == 0
    then []
    else word_writes win_hash_mask hash_key_words cp.hash_mask
      ++ ((reg_hash_seed, cp.hash_seed) ∷ entry_writes cp.hash_entries)

-- the `write32` calls, in order
unfoldable pub table_writes : CardProgram → List Write
unfolding map_clears map_sets cmp_writes udf_writes rule_writes hash_clears hash_sets
table_writes cp =
    map_clears
    ++ (map_sets cp.map_entries
        ++ (cmp_writes 0 cp.fc_cmps
            ++ (udf_writes 0 cp.fc_udfs
                ++ (rule_writes num_rule 0 cp.fc_rules ++ (hash_clears ++ hash_sets cp)))))

-- the flow rows up to the card's capacity, the unused ones zeroed
unfoldable pub row_list : ℕ → List FlowRow → List (ℕ × FlowRow)
row_list n rows = map (λ r. (r, get_or rows r zero_row)) (range_from 0 n)

abbrev pub is_soft : Error → Bool
is_soft Error.not_implemented = true
is_soft e = false

-- `if (_s != PW_OK && _s != PW_E_NOT_IMPLEMENTED && worst == PW_OK) worst = _s;`
unfoldable pub worse : Status → Status → Status
worse (err w) s = err w
worse (ok u) (ok v) = ok u
worse (ok u) (err e) = if is_soft e then ok u else err e

abbrev pub is_none {ℓ} : {A : Type ℓ} → Option A → Bool
is_none none = true
is_none (some a) = false

-- the number of rows to write
unfoldable pub row_count : Option CardInfo → ℕ → ℕ
row_count none n = if ltb flow_table_rows n then flow_table_rows else n
row_count (some info) n =
    let m = if ltb n info.num_local_flows then info.num_local_flows else n in
    if ltb flow_table_rows m then flow_table_rows else m

-- more rows than the card implements
unfoldable pub over_capacity : Option CardInfo → ℕ → Bool
over_capacity none n = false
over_capacity (some info) n = not (info.num_local_flows == 0) && ltb info.num_local_flows n

module _ {D : Type 0} where
  -- CHK
  unfoldable pub chk : (D → Status × D) → Status × D → Status × D
  unfolding worse
  chk call (worst, d) = let (s, d') = call d in (worse worst s, d')

  unfoldable pub chk_writes : (ℕ → ℕ → D → Status × D) → List Write → Status × D → Status × D
  unfolding chk
  chk_writes write32 [] st = st
  chk_writes write32 ((off, v) ∷ ws) st = chk_writes write32 ws (chk (write32 off v) st)

  unfoldable pub chk_rows :
      (ℕ → FlowRow → D → Status × D) → List (ℕ × FlowRow) → Status × D → Status × D
  unfolding chk
  chk_rows flow_write [] st = st
  chk_rows flow_write ((r, f) ∷ rs) st = chk_rows flow_write rs (chk (flow_write r f) st)

  -- The card's information, where it can be had.
  unfoldable pub read_info : BackendOps D → D → Option CardInfo × D
  read_info ops d = elim (ops.card_info) [
    | none ↦ (none, d)
    | some call ↦ let (r, d') = call d in elim r [ ok info ↦ (some info, d') | err e ↦ (none, d') ]
  ]

  -- An operation that the program needs and the backend lacks.
  unfoldable pub missing_ops : BackendOps D → CardProgram → Bool
  missing_ops ops cp =
      (not (length cp.flow_rows == 0) && (is_none ops.flow_write || is_none ops.flow_commit))
      || (is_none ops.write32
          && (not (length cp.map_entries == 0)
              || not (length cp.fc_cmps == 0)
              || not (length cp.fc_udfs == 0)
              || not (length cp.fc_rules == 0)
              || not (length cp.hash_entries == 0)))

  unfoldable pub write_tables :
      BackendOps D → CardProgram → Option CardInfo → Status × D → Status × D
  unfolding chk_rows chk_writes chk row_list row_count table_writes
  write_tables ops cp info st =
      let rows : Status × D = elim (ops.flow_write) [
        | none ↦ st
        | some fw ↦ chk_rows fw (row_list (row_count info (length cp.flow_rows)) cp.flow_rows) st
      ] in
      let committed : Status × D = elim (ops.flow_commit) [ none ↦ rows | some fc ↦ chk fc rows ] in
      elim (ops.write32) [ none ↦ committed | some w ↦ chk_writes w (table_writes cp) committed ]

  -- what follows the checks of the counts and indexes
  unfoldable pub program_checked : BackendOps D → CardProgram → D → Status × D
  unfolding read_info over_capacity missing_ops write_tables
  program_checked ops cp d =
      let (info, d') = read_info ops d in
      if over_capacity info (length cp.flow_rows)
      then (err Error.no_resources, d')
      else write_tables ops cp info
          (if missing_ops ops cp then err Error.not_implemented else ok tt, d')

  unfoldable pub program_card_tables : BackendOps D → CardProgram → D → Status × D
  unfolding precheck program_checked
  program_card_tables ops cp d = elim (precheck cp) [
    | err e ↦ (err e, d)
    | ok u ↦ program_checked ops cp d
  ]
