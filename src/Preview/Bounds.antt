-- ===== src/Preview/Bounds.antt =====
-- How many bytes each stage of the preview writes (sw/libpacketwyrm/src/frame_preview.c): what is
-- written ends inside the frame, and the frame inside the buffer.
use packet_wyrm.Base.{
  ℕ, ◌+◌, ◌≤◌, ◌≡◌, refl, subst, ◌∙◌, Bool, true, false, Bool-cases, inl, inr, Option, some, List,
  ◌++◌, length, if◌then◌else◌, ltb, arith, length-append,
}
use packet_wyrm.Config.FlowModel.{Flow, template_test}
use packet_wyrm.Preview.Modifiers.{Effective, effective, pv_mod128, pv_lane, word_bytes}
use packet_wyrm.Preview.{puts, reject_when}
use packet_wyrm.Preview.Build.{
  is_template, is_tcp, asked_len, min_frame, clamped, l4_header, test_header, Preview, finish_l4,
}
use packet_wyrm.Preview.Window.{bind-some, some_eq}
use packet_wyrm.Preview.Lengths.{length-puts, length-wbe16, length-l4_header}

-- What a built frame has to be: the bytes written are the headers and end inside the frame.
pub record Within (frame_len written : ℕ) (r : Preview) : Type 0 where
  pub len : r.frame_len ≡ frame_len
  pub whole : length r.buf ≡ r.built
  pub ends : r.built ≡ written

length_with_test :
    (f : Flow) (seq : ℕ) (buf : List ℕ)
    → length (if is_template template_test f then buf ++ test_header f seq else buf)
      ≡ length buf + (if is_template template_test f then 32 else 0)
unfolding test_header
length_with_test f seq buf = elim (Bool-cases (is_template template_test f)) [
  | inl test ↦ rw test (length-append buf (test_header f seq))
  | inr raw ↦ rw raw (omega arith)
]

pub finish_l4-Within :
    (cap : ℕ) (f : Flow) (eff : Effective) (seq frame_len l4_len : ℕ) (buf : List ℕ) {r : Preview}
    → finish_l4 cap f eff seq frame_len l4_len buf ≡ some r
    → Within frame_len
        (length buf
          + ((if is_tcp f then 20 else 8) + (if is_template template_test f then 32 else 0)))
        r
unfolding finish_l4
finish_l4-Within cap f eff seq frame_len l4_len buf h =
    let step = bind-some (puts cap buf (l4_header f eff seq l4_len)) _ h in
    let headers = length-puts cap buf _ _ (length-l4_header f eff seq l4_len) step.first in
    subst (Within frame_len _) (some_eq step.done) (record {
      len = refl;
      whole = length-wbe16 _ _ _;
      ends = length_with_test f seq step.value ∙ omega (arith, headers);
    })

-- what is written behind the inner IP header, by whether the frame ends there
abbrev behind_ip : Bool → Flow → ℕ
behind_ip is_raw f =
    if is_raw
    then 0
    else ((if is_tcp f then 20 else 8) + (if is_template template_test f then 32 else 0))

pub record Passed {A : Type 0} (bad : Bool) (next : Option A) (r : A) : Type 0 where
  pub good : bad ≡ false
  pub rest : next ≡ some r

pub reject_when-some :
    {A : Type 0} (bad : Bool) (next : Option A) {r : A}
    → reject_when bad next ≡ some r
    → Passed bad next r
unfolding reject_when
reject_when-some true next h = absurd (cc)
reject_when-some false next h = record { good = refl; rest = h }

larger : (a b : ℕ) → (b ≤ (if ltb a b then b else a)) × (a ≤ (if ltb a b then b else a))
larger a b = (ground arith, ground arith)

pub fits_of : (a b : ℕ) → ltb b a ≡ false → a ≤ b
fits_of a b h = ground arith

pub clamped-le : (f : Flow) (o : ℕ) → (min_frame f o ≤ clamped f o) × (asked_len f ≤ clamped f o)
unfolding clamped
clamped-le f o = larger (asked_len f) (min_frame f o)

pub effective_v6 :
    (f : Flow) (seq : ℕ)
    → (length (effective f seq).v6src ≡ 16) × (length (effective f seq).v6dst ≡ 16)
unfolding effective pv_mod128 pv_lane word_bytes
effective_v6 f seq = (refl, refl)

-- the bytes by which the headers of an L2RAW frame can be longer than the frame: its length is tested
-- against 14, and its tag is not counted
abbrev pub uncounted : Bool → Flow → ℕ
uncounted is_l2raw f = if is_l2raw then (if f.l2.vlan_set then 4 else 0) else 0

-- what `build_preview-Fits` states of a result, by whether it is an L2RAW frame
abbrev pub Fits : Bool → Flow → ℕ → Preview → Type 0
Fits is_l2raw f cap r =
    (r.frame_len ≤ cap)
    × ((asked_len f ≤ r.frame_len)
        × ((r.built ≤ cap)
            × ((r.built ≤ r.frame_len + uncounted is_l2raw f) × (length r.buf ≡ r.built))))
