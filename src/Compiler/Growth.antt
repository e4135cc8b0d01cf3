-- ===== src/Compiler/Growth.antt =====
-- How the passes change the cards: each one works on the card that `card_slot` finds, keeps its
-- id, and only adds behind what is in its tables.
use packet_wyrm.Base.{
  ℕ, ◌≡◌, ◌≢◌, refl, ap, sym, ◌∙◌, some, List, [], ◌∷◌, ◌++◌, All, get_elem?, get_elem?-append_left,
  Result, ok, ok-injective, >>=-eq-ok, arith,
}
use mathlib.Core.List.{append_assoc, append-nil}
use native.Mathlib.Decide.{ℕ_discrete}
use packet_wyrm.Compiler.Tables.{HashEntry, CardProgram}
use packet_wyrm.Compiler.Append.{card_slot, update_card}

-- the slots that the hash entries lead to
abbrev pub entry_slots : List HashEntry → List ℕ
entry_slots [] = []
entry_slots (e ∷ es) = e.local_flow_id ∷ entry_slots es

pub record IsPrefix {ℓ} {A : Type ℓ} (xs ys : List A) : Type ℓ where
  pub extra : List A
  pub grown : ys ≡ xs ++ extra

module _ {ℓ} {A : Type ℓ} where
  pub IsPrefix-refl : (xs : List A) → IsPrefix xs xs
  IsPrefix-refl xs = record { extra = []; grown = sym (append-nil xs) }

  pub IsPrefix-end : (xs : List A) (v : A) → IsPrefix xs (xs ++ v ∷ [])
  IsPrefix-end xs v = record { extra = v ∷ []; grown = refl }

  pub IsPrefix-trans : {xs ys zs : List A} → IsPrefix xs ys → IsPrefix ys zs → IsPrefix xs zs
  IsPrefix-trans {xs} p q = record {
    extra = p.extra ++ q.extra;
    grown = q.grown ∙ ap (λ l. l ++ q.extra) p.grown ∙ append_assoc xs p.extra q.extra;
  }

  pub get_elem?-IsPrefix :
      {xs ys : List A} (i : ℕ) {v : A}
      → IsPrefix xs ys
      → get_elem? xs i ≡ some v
      → get_elem? ys i ≡ some v
  get_elem?-IsPrefix {xs} i p h = rw p.grown (get_elem?-append_left xs p.extra i h)

pub record CardGrows (c c' : CardProgram) : Type 0 where
  pub id : c'.card_id ≡ c.card_id
  pub rows : IsPrefix c.flow_rows c'.flow_rows
  pub maps : IsPrefix c.map_entries c'.map_entries
  pub keys : IsPrefix (entry_slots c.hash_entries) (entry_slots c'.hash_entries)

pub CardGrows-refl : (c : CardProgram) → CardGrows c c
CardGrows-refl c = record {
  id = refl;
  rows = IsPrefix-refl _;
  maps = IsPrefix-refl _;
  keys = IsPrefix-refl _;
}

pub CardGrows-trans : {a b c : CardProgram} → CardGrows a b → CardGrows b c → CardGrows a c
CardGrows-trans p q = record {
  id = q.id ∙ p.id;
  rows = IsPrefix-trans p.rows q.rows;
  maps = IsPrefix-trans p.maps q.maps;
  keys = IsPrefix-trans p.keys q.keys;
}

-- Every card that was found is found again, grown.
abbrev pub Grows : List CardProgram → List CardProgram → Type 0
Grows cs cs' =
    (id : ℕ) (c : CardProgram)
    → card_slot id cs ≡ some c
    → (c' : CardProgram) × (card_slot id cs' ≡ some c') × CardGrows c c'

pub Grows-refl : (cs : List CardProgram) → Grows cs cs
Grows-refl cs id c h = (c, h, CardGrows-refl c)

pub Grows-trans : (a b c : List CardProgram) → Grows a b → Grows b c → Grows a c
Grows-trans a b c p q id x h =
    let (y, hy, gy) = p id x h in let (z, hz, gz) = q id y hy in (z, hz, CardGrows-trans gy gz)

slot_hit :
    (id : ℕ) (d : CardProgram) (ds : List CardProgram)
    → d.card_id ≡ id
    → card_slot id (d ∷ ds) ≡ some d
unfolding card_slot
slot_hit id d ds e = ground arith

slot_miss :
    (id : ℕ) (d : CardProgram) (ds : List CardProgram)
    → d.card_id ≢ id
    → card_slot id (d ∷ ds) ≡ card_slot id ds
unfolding card_slot
slot_miss id d ds e = ground arith

pub card_id-slot :
    (id : ℕ) (cs : List CardProgram) (c : CardProgram) → card_slot id cs ≡ some c → c.card_id ≡ id
unfolding card_slot
card_id-slot id [] c h = cc
card_id-slot id (d ∷ ds) c h = elim (ℕ_discrete d.card_id id) [
  | yes e ↦ ground arith
  | no e ↦ card_id-slot id ds c (ground arith)
]

slot_cons :
    (id : ℕ) (d : CardProgram) (xs ys : List CardProgram)
    → card_slot id xs ≡ card_slot id ys
    → card_slot id (d ∷ xs) ≡ card_slot id (d ∷ ys)
unfolding card_slot
slot_cons id d xs ys h = ground arith

module _ (id : ℕ) (f : CardProgram → Result CardProgram) where
  update_nil : (cs' : List CardProgram) → update_card id f [] ≢ ok cs'
  unfolding update_card
  update_nil cs' u = cc

  update_hit :
      (d : CardProgram) (ds cs' : List CardProgram)
      → d.card_id ≡ id
      → update_card id f (d ∷ ds) ≡ ok cs'
      → (d' : CardProgram) × (f d ≡ ok d') × (d' ∷ ds ≡ cs')
  unfolding update_card
  update_hit d ds cs' e u =
      let (d', h, k) = >>=-eq-ok (f d) (λ x. ok (x ∷ ds)) (ground arith) in (d', h, ok-injective k)

  update_miss :
      (d : CardProgram) (ds cs' : List CardProgram)
      → d.card_id ≢ id
      → update_card id f (d ∷ ds) ≡ ok cs'
      → (ds' : List CardProgram) × (update_card id f ds ≡ ok ds') × (d ∷ ds' ≡ cs')
  unfolding update_card
  update_miss d ds cs' e u =
      let (ds', h, k) = >>=-eq-ok (update_card id f ds) (λ xs. ok (d ∷ xs)) (ground arith) in
      (ds', h, ok-injective k)

  -- A predicate of all cards stays true, if the call keeps it on the card that is found.
  pub update_card-All {κ} :
      (P : CardProgram → Type κ) (cs cs' : List CardProgram)
      → ((c c' : CardProgram) → card_slot id cs ≡ some c → f c ≡ ok c' → P c → P c')
      → All P cs
      → update_card id f cs ≡ ok cs'
      → All P cs'
  update_card-All P [] cs' keep h u = absurd (update_nil cs' u)
  update_card-All P (d ∷ ds) cs' keep h u = elim (ℕ_discrete d.card_id id) [
    | yes e ↦
        let (d', hd, k) = update_hit d ds cs' e u in
        rw (← k) (keep d d' (slot_hit id d ds e) hd h.0, h.1)
    | no e ↦
        let (ds', hs, k) = update_miss d ds cs' e u in
        rw (← k)
          (h.0, update_card-All P ds ds' (λ c c' s. keep c c' (slot_miss id d ds e ∙ s)) h.1 hs)
  ]

  -- The card that `card_slot` finds is worked on, and found again.
  pub slot-update_self :
      (cs cs' : List CardProgram) (c : CardProgram)
      → ((d d' : CardProgram) → card_slot id cs ≡ some d → f d ≡ ok d' → d'.card_id ≡ d.card_id)
      → card_slot id cs ≡ some c
      → update_card id f cs ≡ ok cs'
      → (c' : CardProgram) × (f c ≡ ok c') × (card_slot id cs' ≡ some c')
  slot-update_self [] cs' c keeps h u = absurd (update_nil cs' u)
  slot-update_self (d ∷ ds) cs' c keeps h u = elim (ℕ_discrete d.card_id id) [
    | yes e ↦
        let (d', hd, k) = update_hit d ds cs' e u in
        let same : d ≡ c = cc (h, slot_hit id d ds e) in
        (d', rw (← same) hd, rw (← k) (slot_hit id d' ds (keeps d d' (slot_hit id d ds e) hd ∙ e)))
    | no e ↦
        let (ds', hs, k) = update_miss d ds cs' e u in
        let (c', hc, s) =
          slot-update_self ds ds' c (λ x y q. keeps x y (slot_miss id d ds e ∙ q))
            (sym (slot_miss id d ds e) ∙ h) hs in
        (c', hc, rw (← k) (slot_miss id d ds' e ∙ s))
  ]

  -- A card with another id is found as before.
  pub slot-update_ne :
      (cs cs' : List CardProgram) (other : ℕ)
      → ((d d' : CardProgram) → card_slot id cs ≡ some d → f d ≡ ok d' → d'.card_id ≡ d.card_id)
      → other ≢ id
      → update_card id f cs ≡ ok cs'
      → card_slot other cs' ≡ card_slot other cs
  slot-update_ne [] cs' other keeps ne u = absurd (update_nil cs' u)
  slot-update_ne (d ∷ ds) cs' other keeps ne u = elim (ℕ_discrete d.card_id id) [
    | yes e ↦
        let (d', hd, k) = update_hit d ds cs' e u in
        let away : d.card_id ≢ other = λ q. ne (sym q ∙ e) in
        let away' : d'.card_id ≢ other = λ q. away (sym (keeps d d' (slot_hit id d ds e) hd) ∙ q) in
        rw (← k) (slot_miss other d' ds away' ∙ sym (slot_miss other d ds away))
    | no e ↦
        let (ds', hs, k) = update_miss d ds cs' e u in
        rw (← k) (
          slot_cons other d ds' ds
            (slot-update_ne ds ds' other (λ x y q. keeps x y (slot_miss id d ds e ∙ q)) ne hs))
  ]

  -- A call that grows its card grows the cards.
  pub update_card-Grows :
      (cs cs' : List CardProgram)
      → ((d d' : CardProgram) → card_slot id cs ≡ some d → f d ≡ ok d' → CardGrows d d')
      → update_card id f cs ≡ ok cs'
      → Grows cs cs'
  update_card-Grows cs cs' grow u other c h = elim (ℕ_discrete other id) [
    | yes e ↦
        let (c', hc, s) = slot-update_self cs cs' c keeps (rw (← e) h) u in
        (c', rw e s, grow c c' (rw (← e) h) hc)
    | no e ↦ (c, slot-update_ne cs cs' other keeps e u ∙ h, CardGrows-refl c)
  ]
    where
      keeps : (d d' : CardProgram) → card_slot id cs ≡ some d → f d ≡ ok d' → d'.card_id ≡ d.card_id
      keeps d d' q hd = (grow d d' q hd).id
