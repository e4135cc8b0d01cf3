-- ===== src/Config/Parse/Fields.antt =====
-- The schema walker of sw/libpacketwyrm/src/config.c: how one field of a mapping is read. A node
-- that is absent is `none`, the NULL of the source; the texts of diagnostics are left out.
use packet_wyrm.Base.{
  ℕ, zero, suc, take, Bool, true, false, Option, none, some, List, [], ◌∷◌, if◌then◌else◌, Text,
  words_eq, Result, ok, err, Error, ◌>>=◌,
}
use packet_wyrm.Yaml.{Node, scalar, mapping, sequence, Items, map_get}

-- `PW_NAME_MAX`, `PW_SECRET_MAX` and `PW_PCI_BDF_MAX`
abbrev pub name_max : ℕ
name_max = 32

abbrev pub secret_max : ℕ
secret_max = 128

abbrev pub pci_bdf_max : ℕ
pci_bdf_max = 16

-- `copy_str`, into an array of `n` characters with the NUL
unfoldable pub copy_str : ℕ → Text → Text
copy_str zero s = []
copy_str (suc n) s = take n s

-- `REQ_MAP`
unfoldable pub req_map : Option Node → Result Node
req_map none = err Error.parse
req_map (some (mapping m)) = ok (mapping m)
req_map (some (scalar v)) = err Error.parse
req_map (some (sequence s)) = err Error.parse

-- `REQ_SEQ`
unfoldable pub req_seq : Option Node → Result Items
req_seq none = err Error.parse
req_seq (some (sequence s)) = ok s
req_seq (some (scalar v)) = err Error.parse
req_seq (some (mapping m)) = err Error.parse

scalar_value : Node → Result (Option Text)
scalar_value (scalar v) = ok (some v)
scalar_value (mapping m) = err Error.parse
scalar_value (sequence s) = err Error.parse

-- `get_scalar`
unfoldable pub get_scalar : Node → Text → Bool → Result (Option Text)
unfolding scalar_value map_get
get_scalar m key required = elim (map_get m key) [
  | none ↦ if required then err Error.missing_field else ok none
  | some v ↦ scalar_value v
]

module _ {ℓ} {A : Type ℓ} where
  -- `if (!parse(s, &x)) return e;`, where `s` is there
  unfoldable pub accept : (Text → Option A) → Error → Text → Result A
  accept parse e s = elim (parse s) [ none ↦ err e | some v ↦ ok v ]

  -- a field that must be there
  unfoldable pub required_field : Node → Text → (Text → Option A) → Error → Result A
  unfolding accept get_scalar
  required_field m key parse e = elim (get_scalar m key true) [
    | err code ↦ err code
    | ok none ↦ err Error.missing_field
    | ok (some s) ↦ accept parse e s
  ]

  -- `if (s && !parse(s, &x)) return e;`, with what `x` has before
  unfoldable pub optional_field : Node → Text → (Text → Option A) → Error → A → Result A
  unfolding accept get_scalar
  optional_field m key parse e default = elim (get_scalar m key false) [
    | err code ↦ err code
    | ok none ↦ ok default
    | ok (some s) ↦ accept parse e s
  ]

  -- a submapping that may be absent
  unfoldable pub optional_map : Node → Text → (Node → Result A) → A → Result A
  unfolding req_map
  optional_map m key parse default = elim (map_get m key) [
    | none ↦ ok default
    | some sub ↦ req_map (some sub) >>= parse
  ]

-- a text that is copied into an array of `n` characters
abbrev pub text_field : ℕ → Text → Option Text
text_field n s = some (copy_str n s)

-- a chain of `strcmp`, to the value of the first word that is the same
unfoldable pub one_of : List (Text × ℕ) → Text → Option ℕ
one_of [] s = none
one_of ((word, v) ∷ words) s = if words_eq s word then some v else one_of words s

abbrev pub is_absent {ℓ} : {A : Type ℓ} → Option A → Bool
is_absent none = true
is_absent (some a) = false
