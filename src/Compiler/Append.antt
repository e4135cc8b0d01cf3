-- ===== src/Compiler/Append.antt =====
-- The appending helpers of sw/libpacketwyrm/src/flow_compiler.c. `realloc` does not fail here.
use packet_wyrm.Base.{
  ℕ, ◌+◌, ◌*◌, ◌^◌, Option, none, some, Bool, ◌&&◌, List, [], ◌∷◌, ◌++◌, length, get_or, bit_and,
  bit_or, shl, u16, ◌==◌, leb, if◌then◌else◌, Result, ok, err, Error, ◌>>=◌,
}
use packet_wyrm.Compiler.Tables.{
  FlowRow, MapEntry, FcCmp, FcUdf, FcRule, HashEntry, CardProgram, num_cmp, num_udf, num_rule,
  hash_depth,
}

-- `card_slot`
unfoldable pub card_slot : ℕ → List CardProgram → Option CardProgram
card_slot id [] = none
card_slot id (c ∷ cs) = if c.card_id == id then some c else card_slot id cs

-- a call that works on the card which `card_slot` points to, and PW_E_UNKNOWN_CARD on NULL
unfoldable pub update_card :
    ℕ → (CardProgram → Result CardProgram) → List CardProgram → Result (List CardProgram)
update_card id f [] = err Error.unknown_card
update_card id f (c ∷ cs) =
    if c.card_id == id
    then (f c >>= λ c'. ok (c' ∷ cs))
    else (update_card id f cs >>= λ cs'. ok (c ∷ cs'))

unfoldable pub append_flow : FlowRow → CardProgram → Result CardProgram
append_flow f cp = ok (record cp { flow_rows = cp.flow_rows ++ f ∷ [] })

unfoldable pub append_map : ℕ → ℕ → CardProgram → Result CardProgram
append_map flow_id local_flow_id cp = ok (record cp { map_entries = cp.map_entries ++ entry ∷ [] })
  where
    entry : MapEntry
    entry = record { flow_id = flow_id; local_flow_id = local_flow_id }

-- `cp->fc_cmps[i].src == src && …`
abbrev pub same_cmp : FcCmp → FcCmp → Bool
same_cmp c d = d.src == c.src && d.mask == c.mask && d.value == c.value

-- the index, from `i` on, of the first comparator that equals `c`
unfoldable pub find_cmp : FcCmp → ℕ → List FcCmp → Option ℕ
find_cmp c i [] = none
find_cmp c i (d ∷ ds) = if same_cmp c d then some i else find_cmp c (i + 1) ds

-- The comparator-bit index comes back beside the card.
unfoldable pub append_fc_cmp : FcCmp → CardProgram → Result (ℕ × CardProgram)
append_fc_cmp c cp = elim (find_cmp c 0 cp.fc_cmps) [
  | some i ↦ ok (i, cp)
  | none ↦
      if leb num_cmp (length cp.fc_cmps)
      then err Error.no_resources
      else ok (length cp.fc_cmps, record cp { fc_cmps = cp.fc_cmps ++ c ∷ [] })
]

abbrev pub same_udf : FcUdf → FcUdf → Bool
same_udf u v = v.offset == u.offset && v.mask == u.mask && v.value == u.value

unfoldable pub find_udf : FcUdf → ℕ → List FcUdf → Option ℕ
find_udf u i [] = none
find_udf u i (v ∷ vs) = if same_udf u v then some i else find_udf u (i + 1) vs

unfoldable pub append_fc_udf : FcUdf → CardProgram → Result (ℕ × CardProgram)
append_fc_udf u cp = elim (find_udf u 0 cp.fc_udfs) [
  | some i ↦ ok (num_cmp + i, cp)
  | none ↦
      if leb num_udf (length cp.fc_udfs)
      then err Error.no_resources
      else ok (num_cmp + length cp.fc_udfs, record cp { fc_udfs = cp.fc_udfs ++ u ∷ [] })
]

unfoldable pub append_fc_rule : FcRule → CardProgram → Result CardProgram
append_fc_rule r cp =
    if leb num_rule (length cp.fc_rules)
    then err Error.no_resources
    else ok (record cp { fc_rules = cp.fc_rules ++ r ∷ [] })

unfoldable pub append_hash_entry : List ℕ → ℕ → CardProgram → Result CardProgram
append_hash_entry w lfid cp =
    if leb hash_depth (length cp.hash_entries)
    then err Error.no_resources
    else ok (record cp { hash_entries = cp.hash_entries ++ entry ∷ [] })
  where
    entry : HashEntry
    entry = record { index = 0; key_word = w; local_flow_id = lfid }

-- A rule under construction: the card, and `care`.
abbrev pub Draft : Type 0
Draft = ℕ × CardProgram

-- `er = append_fc_cmp(…, &bit); if (er != PW_OK) return er; care |= (uint16_t)(1u << bit);`
unfoldable pub need_cmp : FcCmp → Draft → Result Draft
unfolding append_fc_cmp
need_cmp c (care, cp) =
    append_fc_cmp c cp >>= λ (r : ℕ × CardProgram). ok (bit_or care (u16 (shl 1 r.0)), r.1)

-- the same with `append_fc_udf`
unfoldable pub need_udf : FcUdf → Draft → Result Draft
unfolding append_fc_udf
need_udf u (care, cp) =
    append_fc_udf u cp >>= λ (r : ℕ × CardProgram). ok (bit_or care (u16 (shl 1 r.0)), r.1)

-- four bytes, most significant first: `(b[0] << 24) | (b[1] << 16) | (b[2] << 8) | b[3]`; the bytes
-- are below 256, so the parts do not overlap
unfoldable pub be32 : List ℕ → ℕ → ℕ
be32 b at =
    get_or b at 0 * 2 ^ 24
    + get_or b (at + 1) 0 * 2 ^ 16
    + get_or b (at + 2) 0 * 2 ^ 8
    + get_or b (at + 3) 0

-- `append_ipv6_cmps`, from word `w` on; `sel` lists the selectors that are left
unfoldable pub append_ipv6_cmps : List ℕ → List ℕ → ℕ → List ℕ → Draft → Result Draft
unfolding need_cmp be32
append_ipv6_cmps addr mask w [] d = ok d
append_ipv6_cmps addr mask w (s ∷ sel) d =
    (if m == 0
      then ok d
      else need_cmp (record { src = s; mask = m; value = bit_and (be32 addr (w * 4)) m }) d)
    >>= append_ipv6_cmps addr mask (w + 1) sel
  where
    m : ℕ
    m = be32 mask (w * 4)
