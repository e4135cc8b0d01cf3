-- ===== src/Compiler/Passes/Buckets.antt =====
-- The bucket assignment keeps what a card holds: it rewrites the keys and indexes of the hash
-- table, and no slot.
use packet_wyrm.Base.{
  ℕ, ◌≡◌, ◌<◌, refl, sym, ap, ◌∙◌, Bool-cases, inl, inr, List, [], ◌∷◌, All, map, length, ok,
  >>=-eq-ok, ok-injective, arith, ◌==◌,
}
use packet_wyrm.Config.{Config}
use packet_wyrm.Compiler.Tables.{HashEntry, CardProgram}
use packet_wyrm.Compiler.Append.{card_slot}
use packet_wyrm.Compiler.Seed.{
  mask_entry, indistinct, masked, settle, max_attempts, assign_buckets, assign_all,
}
use packet_wyrm.Compiler.Seed.Search.{in_buckets}
use packet_wyrm.Compiler.Seed.First.{search_seed-some}
use packet_wyrm.Compiler.Seed.Buckets.{settle_inv}
use packet_wyrm.Compiler.Growth.{IsPrefix-refl, CardGrows, CardGrows-refl, Grows, entry_slots}
use packet_wyrm.Compiler.OneFlow.Capacity.{KeyFits, CardWell}
use packet_wyrm.Compiler.OneFlow.Sound.{AllWell}
use packet_wyrm.Compiler.Passes.{IsPrefix-eq, Passes}

slots-mask :
    (mask : List ℕ) (es : List HashEntry) → entry_slots (map (mask_entry mask) es) ≡ entry_slots es
slots-mask mask [] = refl
slots-mask mask (e ∷ es) = ap (λ l. e.local_flow_id ∷ l) (slots-mask mask es)

slots-in_buckets :
    (seed : ℕ) (es : List HashEntry) → entry_slots (in_buckets seed es) ≡ entry_slots es
slots-in_buckets seed [] = refl
slots-in_buckets seed (e ∷ es) = ap (λ l. e.local_flow_id ∷ l) (slots-in_buckets seed es)

length-slots : (es : List HashEntry) → length (entry_slots es) ≡ length es
length-slots [] = refl
length-slots (e ∷ es) = omega (arith, length-slots es)

module _ (n : ℕ) where
  slots-fit : (es : List HashEntry) → All (KeyFits n) es → All (λ l. l < n) (entry_slots es)
  slots-fit [] h = tt
  slots-fit (e ∷ es) h = (h.0, slots-fit es h.1)

  fit-slots : (es : List HashEntry) → All (λ l. l < n) (entry_slots es) → All (KeyFits n) es
  fit-slots [] h = tt
  fit-slots (e ∷ es) h = (h.0, fit-slots es h.1)

  fit-same :
      (es es' : List HashEntry)
      → entry_slots es' ≡ entry_slots es
      → All (KeyFits n) es
      → All (KeyFits n) es'
  fit-same es es' e h = fit-slots es' (rw e (slots-fit es h))

-- the card with other keys and buckets, and the slots it had
module _ (cp : CardProgram) (mask : List ℕ) (seed : ℕ) (es : List HashEntry)
    (same : entry_slots es ≡ entry_slots cp.hash_entries) where
  rekeyed : CardProgram
  rekeyed = record cp { hash_mask = mask; hash_seed = seed; hash_entries = es }

  rekeyed-CardWell : CardWell cp → CardWell rekeyed
  unfolding rekeyed
  rekeyed-CardWell w = record {
    rows = w.rows;
    numbered = w.numbered;
    maps = w.maps;
    keys = fit-same (length cp.flow_rows) cp.hash_entries es same w.keys;
    key_count =
        omega (
          arith,
          w.key_count,
          sym (length-slots es) ∙ ap length same ∙ length-slots cp.hash_entries,
        );
    pool = record { cmps = w.pool.cmps; udfs = w.pool.udfs };
    rules = w.rules;
  }

  rekeyed-CardGrows : CardGrows cp rekeyed
  unfolding rekeyed
  rekeyed-CardGrows = record {
    id = refl;
    rows = IsPrefix-refl _;
    maps = IsPrefix-refl _;
    keys = IsPrefix-eq same;
  }

settled :
    (cfg : Config) (cp cp' : CardProgram)
    → settle max_attempts (masked cfg cp) ≡ ok cp'
    → CardWell cp
    → CardWell cp' × CardGrows cp cp'
unfolding masked rekeyed
settled cfg cp cp' h w =
    let (seed, es, found, e) = settle_inv max_attempts (masked cfg cp) cp' h in
    let first = search_seed-some max_attempts 0 (masked cfg cp).hash_entries seed es found in
    let same : entry_slots es ≡ entry_slots cp.hash_entries =
      ap entry_slots first.entries
      ∙ slots-in_buckets _ (masked cfg cp).hash_entries
      ∙ slots-mask _ cp.hash_entries in
    rw (← e) (
      rekeyed-CardWell cp (masked cfg cp).hash_mask seed es same w,
      rekeyed-CardGrows cp (masked cfg cp).hash_mask seed es same,
    )

assigned :
    (cfg : Config) (cp cp' : CardProgram)
    → assign_buckets cfg cp ≡ ok cp'
    → CardWell cp
    → CardWell cp' × CardGrows cp cp'
unfolding assign_buckets
assigned cfg cp cp' h w = elim (Bool-cases (length cp.hash_entries == 0)) [
  | inl empty ↦ let e : cp ≡ cp' = ok-injective (ground arith) in rw (← e) (w, CardGrows-refl cp)
  | inr used ↦ elim (Bool-cases (indistinct (masked cfg cp).hash_entries)) [
    | inl same ↦ absurd (ground arith)
    | inr own ↦ settled cfg cp cp' (ground arith) w
  ]
]

slot_cons-grown :
    (cs cs' : List CardProgram) (d d' : CardProgram)
    → CardGrows d d'
    → Grows cs cs'
    → Grows (d ∷ cs) (d' ∷ cs')
unfolding card_slot
slot_cons-grown cs cs' d d' g gs id c h = elim (Bool-cases (d.card_id == id)) [
  | inl here ↦ let e : d ≡ c = ground arith in (d', ground (arith, g.id), rw (← e) g)
  | inr there ↦ let (c', found, grown) = gs id c (ground arith) in (c', ground (arith, g.id), grown)
]

pub assign_all-Passes :
    (cfg : Config) (cs cs' : List CardProgram)
    → AllWell cs
    → assign_all cfg cs ≡ ok cs'
    → Passes cs cs'
unfolding assign_all
assign_all-Passes cfg [] cs' w h =
    rw (← ok-injective h) (tt, λ id c found. (c, found, CardGrows-refl c))
assign_all-Passes cfg (d ∷ cs) cs' w h =
    let (d', hd, h1) = >>=-eq-ok (assign_buckets cfg d) _ h in
    let (ds, hs, h2) = >>=-eq-ok (assign_all cfg cs) _ h1 in
    let (well, grows) = assigned cfg d d' hd w.0 in
    let rest = assign_all-Passes cfg cs ds w.1 hs in
    rw (← ok-injective h2) ((well, rest.0), slot_cons-grown cs ds d d' grows rest.1)
