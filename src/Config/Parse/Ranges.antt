-- ===== src/Config/Parse/Ranges.antt =====
-- What the readers of one field ensure.
use packet_wyrm.Base.{
  ℕ, zero, suc, length-take, ap, u32, ◌==◌, ◌∷◌, [], words_eq, if-both, if◌then◌else◌, Bool-cases,
  inl, inr, ◌≤◌, ◌<◌, ◌^◌, ◌≡◌, refl, true, false, Option, none, some, Text, length, All, List,
  Result, ok, err, Error, Ensures, fails, returns, Meets, arith, ◌>>=◌, Ensures-bind,
}
use packet_wyrm.Base.Texts.{strtoull}
use packet_wyrm.Yaml.{Node, Items, nil, cons, map_get, count_items}
use packet_wyrm.Scalar.{
  at_most, all_bytes, scan_octets, octets_behind, parse_u8, parse_u16, parse_u32, parse_u64,
  parse_mac,
}
use packet_wyrm.Scalar.Numbers.{parse_u64-lt}
use packet_wyrm.Config.Parse.Fields.{
  get_scalar, accept, required_field, optional_field, optional_map, copy_str, one_of, req_map,
  req_seq,
}
use packet_wyrm.Config.Parse.Cards.{each_item}

module _ {A : Type 0} {P : A → Type 0} (m : Node) (key : Text) (parse : Text → Option A)
    (e : Error) where
  accepted-Meets : (o : Option A) → Meets P o → Ensures P (elim o [ none ↦ err e | some v ↦ ok v ])
  accepted-Meets none p = fails e
  accepted-Meets (some v) p = returns v p

  pub Ensures-required : ((s : Text) → Meets P (parse s)) → Ensures P (required_field m key parse e)
  unfolding required_field
  Ensures-required meets =
      elim (get_scalar m key true)
        as (λ r. Ensures P (elim r [
          | err code ↦ err code
          | ok none ↦ err Error.missing_field
          | ok (some s) ↦ accept parse e s
        ])) [
          | err code ↦ fails code
          | ok none ↦ fails Error.missing_field
          | ok (some s) ↦ accepted-Meets (parse s) (meets s)
        ]

  pub Ensures-optional :
      (default : A)
      → P default
      → ((s : Text) → Meets P (parse s))
      → Ensures P (optional_field m key parse e default)
  unfolding optional_field
  Ensures-optional default p meets =
      elim (get_scalar m key false)
        as (λ r. Ensures P (elim r [
          | err code ↦ err code
          | ok none ↦ ok default
          | ok (some s) ↦ accept parse e s
        ])) [
          | err code ↦ fails code
          | ok none ↦ returns default p
          | ok (some s) ↦ accepted-Meets (parse s) (meets s)
        ]

pub at_most-Meets : (limit : ℕ) (o : Option ℕ) → Meets (λ v. v ≤ limit) (at_most limit o)
unfolding at_most
at_most-Meets limit none = tt
at_most-Meets limit (some v) = ground arith

pub u8-Meets : (s : Text) → Meets (λ v. v ≤ 0xFF) (parse_u8 s)
unfolding parse_u8
u8-Meets s = at_most-Meets 0xFF (parse_u64 s)

pub u16-Meets : (s : Text) → Meets (λ v. v ≤ 0xFFFF) (parse_u16 s)
unfolding parse_u16
u16-Meets s = at_most-Meets 0xFFFF (parse_u64 s)

pub u32-Meets : (s : Text) → Meets (λ v. v ≤ 0xFFFFFFFF) (parse_u32 s)
unfolding parse_u32
u32-Meets s = at_most-Meets 0xFFFFFFFF (parse_u64 s)

pub u64-Meets : (s : Text) → Meets (λ v. v < 2 ^ 64) (parse_u64 s)
u64-Meets s = go (parse_u64 s) refl
  where
    go : (o : Option ℕ) → parse_u64 s ≡ o → Meets (λ v. v < 2 ^ 64) o
    go none h = tt
    go (some v) h = parse_u64-lt s h

-- A copied text leaves room for the NUL.
pub copy_str-lt : (n : ℕ) (s : Text) → 0 < n → length (copy_str n s) < n
unfolding copy_str
copy_str-lt zero s h = absurd (omega arith)
copy_str-lt (suc n) s h = omega (arith, length-take n s)

pub one_of-Meets :
    (P : ℕ → Type 0) (words : List (Text × ℕ))
    → All (λ w. P w.1) words
    → (s : Text) → Meets P (one_of words s)
unfolding one_of
one_of-Meets P [] all s = tt
one_of-Meets P ((word, v) ∷ words) all s =
    if-both (Meets P) (words_eq s word) (some v) (one_of words s) all.0
      (one_of-Meets P words all.1 s)

abbrev pub IsBytes : ℕ → List ℕ → Type 0
IsBytes n b = (length b ≡ n) × All (λ o. o ≤ 0xFF) b

one_more :
    (n o : ℕ) (r : Option (List ℕ))
    → Meets (λ os. length os ≡ n) r
    → Meets (λ os. length os ≡ suc n) (elim r [ none ↦ none | some os ↦ some (o ∷ os) ])
one_more n o none meets = tt
one_more n o (some os) meets = ap suc meets

octets_behind-Meets :
    (n o : ℕ) (s : Text) (next : Text → Option (List ℕ))
    → ((t : Text) → Meets (λ os. length os ≡ n) (next t))
    → Meets (λ os. length os ≡ suc n) (octets_behind n o s next)
unfolding octets_behind
octets_behind-Meets zero o [] next meets = refl
octets_behind-Meets zero o (c ∷ s) next meets = tt
octets_behind-Meets (suc n) o [] next meets = tt
octets_behind-Meets (suc n) o (c ∷ s) next meets =
    elim (c == b':')
      as (λ colon.
        Meets (λ os. length os ≡ suc (suc n))
          (elim colon [
            | true ↦ elim (next s) [ none ↦ none | some os ↦ some (o ∷ os) ]
            | false ↦ none
          ])) [ true ↦ one_more (suc n) o (next s) (meets s) | false ↦ tt ]

scan_octets-Meets : (n : ℕ) (s : Text) → Meets (λ os. length os ≡ n) (scan_octets n s)
unfolding scan_octets
scan_octets-Meets zero s = tt
scan_octets-Meets (suc n) s =
    elim (strtoull 16 s)
      as (λ r.
        Meets (λ os. length os ≡ suc n)
          (elim r [
            | none ↦ none
            | some c ↦ octets_behind n (u32 c.value) c.rest (scan_octets n)
          ])) [
            | none ↦ tt
            | some c ↦
                octets_behind-Meets n (u32 c.value) c.rest (scan_octets n) (scan_octets-Meets n)
          ]

all_bytes-Meets : (o : List ℕ) → all_bytes o ≡ true → All (λ o. o ≤ 0xFF) o
unfolding all_bytes
all_bytes-Meets [] h = tt
all_bytes-Meets (b ∷ o) h = ground (arith, all_bytes-Meets o)

pub mac-Meets : (s : Text) → Meets (IsBytes 6) (parse_mac s)
unfolding parse_mac
mac-Meets s = go (scan_octets 6 s) (scan_octets-Meets 6 s)
  where
    go :
        (r : Option (List ℕ))
        → Meets (λ os. length os ≡ 6) r
        → Meets
            (IsBytes 6)
            (elim r [ none ↦ none | some os ↦ if all_bytes os then some os else none ])
    go none meets = tt
    go (some os) meets = elim (Bool-cases (all_bytes os)) [
      | inl all ↦ rw all (meets, all_bytes-Meets os all)
      | inr not_all ↦ rw not_all tt
    ]

-- Nothing is asked of the result.
abbrev pub Free : (A : Type 0) → A → Type 0
Free A a = Unit {0}

free : {A : Type 0} (r : Result A) → Ensures (Free A) r
free (ok a) = returns a tt
free (err e) = fails e

pub Free-map : (given : Option Node) → Ensures (Free Node) (req_map given)
Free-map given = free (req_map given)

module _ {A : Type 0} (m : Node) (key : Text) (parse : Text → Option A) (e : Error) where
  pub Free-required : Ensures (Free A) (required_field m key parse e)
  Free-required = free (required_field m key parse e)

  pub Free-optional : (d : A) → Ensures (Free A) (optional_field m key parse e d)
  Free-optional d = free (optional_field m key parse e d)

module _ {A : Type 0} {P : A → Type 0} where
  pub Ensures-map :
      (m : Node) (key : Text) (parse : Node → Result A) (default : A)
      → P default
      → ((n : Node) → Ensures P (parse n))
      → Ensures P (optional_map m key parse default)
  unfolding optional_map
  Ensures-map m key parse default p each =
      elim (map_get m key)
        as (λ o.
          Ensures P (elim o [ none ↦ ok default | some sub ↦ req_map (some sub) >>= parse ])) [
            | none ↦ returns default p
            | some sub ↦ Ensures-bind (Free Node) (Free-map (some sub)) λ n _. each n
          ]

  -- The items of a sequence, one result for each.
  pub Ensures-each :
      (parse : Node → Result A) (items : Items)
      → ((n : Node) → Ensures P (parse n))
      → Ensures (λ as_. All P as_ × (length as_ ≡ count_items items)) (each_item parse items)
  unfolding each_item count_items
  Ensures-each parse nil each = returns [] (tt, refl)
  Ensures-each parse (cons x rest) each = Ensures-bind P (each x) λ a p.
      Ensures-bind (λ as_. All P as_ × (length as_ ≡ count_items rest))
        (Ensures-each parse rest each) λ as_ all. returns _ ((p, all.0), ap suc all.1)

pub Free-seq : (given : Option Node) → Ensures (Free Items) (req_seq given)
Free-seq given = free (req_seq given)

pub Free-any_map :
    {A : Type 0} (m : Node) (key : Text) (parse : Node → Result A) (default : A)
    → Ensures (Free A) (optional_map m key parse default)
Free-any_map m key parse default = free (optional_map m key parse default)
