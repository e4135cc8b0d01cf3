-- ===== src/Compiler/Rules/Drafts.antt =====
-- A rule under construction: each comparator that is asked for narrows what the rule matches by
-- its own condition, and by nothing else.
use packet_wyrm.Base.{
  ℕ, ◌≡◌, ◌↔◌, ◌⊎◌, inl, inr, refl, ◌∙◌, Option, some, Bool, true, false, List, [], ◌∷◌, ◌++◌, All,
  bit_or, u16, shl, if◌then◌else◌, ◌^◌, ◌<◌, Result, ok, >>=-eq-ok, ◌>>=◌, ok-injective, arith,
}
use packet_wyrm.Base.Bits.{test_bit, test_bit-or, test_bit-pow, test_bit-le, u16-shl}
use packet_wyrm.Compiler.Tables.{FcCmp, FcUdf, CardProgram}
use packet_wyrm.Compiler.Append.{Draft, append_fc_cmp, append_fc_udf, need_cmp, need_udf}
use packet_wyrm.Compiler.Rules.Meaning.{
  Condition, on_field, on_window, FitsPool, Selects, Extends, Fires, Appended,
  append_fc_cmp-Appended, append_fc_udf-Appended,
}

-- A bit of `care | (1 << b)` is bit `b` or a bit of `care`.
care_bit :
    (care b i : ℕ)
    → b < 14
    → test_bit (bit_or care (u16 (shl 1 b))) i ≡ 1
    → (test_bit care i ≡ 1) ⊎ (i ≡ b)
care_bit care b i h e =
    ground (arith, u16-shl b h, test_bit-or care (2 ^ b) i, test_bit-pow b i, test_bit-le care i)

care_bit_old : (care b i : ℕ) → test_bit care i ≡ 1 → test_bit (bit_or care (u16 (shl 1 b))) i ≡ 1
care_bit_old care b i e =
    ground (arith, test_bit-or care (u16 (shl 1 b)) i, test_bit-le (u16 (shl 1 b)) i)

care_bit_new : (care b : ℕ) → b < 14 → test_bit (bit_or care (u16 (shl 1 b))) b ≡ 1
care_bit_new care b h =
    ground (arith, u16-shl b h, test_bit-or care (2 ^ b) b, test_bit-pow b b, test_bit-le care b)

same_condition : (o : Option Condition) {c e : Condition} → o ≡ some c → o ≡ some e → c ≡ e
same_condition o p q = cc

-- what building a rule leaves alone
pub record Keeps (cp cp' : CardProgram) : Type 0 where
  pub id : cp'.card_id ≡ cp.card_id
  pub rows : cp'.flow_rows ≡ cp.flow_rows
  pub maps : cp'.map_entries ≡ cp.map_entries
  pub keys : cp'.hash_entries ≡ cp.hash_entries

pub Keeps-refl : (cp : CardProgram) → Keeps cp cp
Keeps-refl cp = record { id = refl; rows = refl; maps = refl; keys = refl }

pub Keeps-trans : {a b c : CardProgram} → Keeps a b → Keeps b c → Keeps a c
Keeps-trans p q = record {
  id = q.id ∙ p.id;
  rows = q.rows ∙ p.rows;
  maps = q.maps ∙ p.maps;
  keys = q.keys ∙ p.keys;
}

append_fc_cmp-Keeps :
    (c : FcCmp) (cp : CardProgram) (r : ℕ × CardProgram) → append_fc_cmp c cp ≡ ok r → Keeps cp r.1
unfolding append_fc_cmp
append_fc_cmp-Keeps c cp r h = record {
  id = ground arith;
  rows = ground arith;
  maps = ground arith;
  keys = ground arith;
}

append_fc_udf-Keeps :
    (u : FcUdf) (cp : CardProgram) (r : ℕ × CardProgram) → append_fc_udf u cp ≡ ok r → Keeps cp r.1
unfolding append_fc_udf
append_fc_udf-Keeps u cp r h = record {
  id = ground arith;
  rows = ground arith;
  maps = ground arith;
  keys = ground arith;
}

module _ (Holds : Condition → Type 0) where
  -- From `d` the compiler has gone on to `d'` by asking for the conditions `cs`.
  pub record Builds (cs : List Condition) (d : Draft) (d' : Draft) : Type 0 where
    pub extends : Extends d.1 d'.1
    pub fits : FitsPool d'.1
    pub selects : Selects d'.0 d'.1
    pub rules : d'.1.fc_rules ≡ d.1.fc_rules
    pub keeps : Keeps d.1 d'.1
    pub means : Fires Holds d'.0 d'.1 ↔ (All Holds cs × Fires Holds d.0 d.1)

  abbrev pub IsDraft : Draft → Type 0
  IsDraft d = FitsPool d.1 × Selects d.0 d.1

  -- One comparator.
  Appended-Builds :
      (c : Condition) (d : Draft) (b : ℕ) (cp' : CardProgram)
      → IsDraft d
      → Appended c d.1 b cp'
      → cp'.fc_rules ≡ d.1.fc_rules
      → Keeps d.1 cp'
      → Builds (c ∷ []) d (bit_or d.0 (u16 (shl 1 b)), cp')
  Appended-Builds c d b cp' v a same keeps = record {
    extends = a.extends;
    fits = a.fits;
    selects = λ i e. elim (care_bit d.0 b i a.bit e) [
      | inl old ↦ let (x, hx) = v.1 i old in (x, a.extends i x hx)
      | inr new ↦ (c, rw new a.at_bit)
    ];
    rules = same;
    keeps = keeps;
    means = (
      λ fires. (
        (holds_new fires, tt),
        λ i old.
            let (x, hx) = v.1 i old in
            let (y, hy, holds) = fires i (care_bit_old d.0 b i old) in
            (x, hx, rw (same_condition _ (a.extends i x hx) hy) holds),
      ),
      λ known i e. elim (care_bit d.0 b i a.bit e) [
        | inl old ↦ let (x, hx, holds) = known.1 i old in (x, a.extends i x hx, holds)
        | inr new ↦ (c, rw new a.at_bit, known.0.0)
      ],
    );
  }
    where
      holds_new : Fires Holds (bit_or d.0 (u16 (shl 1 b))) cp' → Holds c
      holds_new fires =
          let (y, hy, holds) = fires b (care_bit_new d.0 b a.bit) in
          rw (same_condition _ a.at_bit hy) holds

  rules-append_fc_cmp :
      (c : FcCmp) (cp : CardProgram) (r : ℕ × CardProgram)
      → append_fc_cmp c cp ≡ ok r
      → r.1.fc_rules ≡ cp.fc_rules
  unfolding append_fc_cmp
  rules-append_fc_cmp c cp r h = ground arith

  rules-append_fc_udf :
      (u : FcUdf) (cp : CardProgram) (r : ℕ × CardProgram)
      → append_fc_udf u cp ≡ ok r
      → r.1.fc_rules ≡ cp.fc_rules
  unfolding append_fc_udf
  rules-append_fc_udf u cp r h = ground arith

  pub need_cmp-Builds :
      (c : FcCmp) (d : Draft)
      → IsDraft d
      → (d' : Draft) → need_cmp c d ≡ ok d'
      → Builds (on_field c ∷ []) d d'
  unfolding need_cmp
  need_cmp-Builds c d v d' h =
      let (r, hr, e) = >>=-eq-ok (append_fc_cmp c d.1) _ h in
      rw (← ok-injective e) (
        Appended-Builds (on_field c) d r.0 r.1 v (append_fc_cmp-Appended c d.1 r v.0 hr)
          (rules-append_fc_cmp c d.1 r hr) (append_fc_cmp-Keeps c d.1 r hr))

  pub need_udf-Builds :
      (u : FcUdf) (d : Draft)
      → IsDraft d
      → (d' : Draft) → need_udf u d ≡ ok d'
      → Builds (on_window u ∷ []) d d'
  unfolding need_udf
  need_udf-Builds u d v d' h =
      let (r, hr, e) = >>=-eq-ok (append_fc_udf u d.1) _ h in
      rw (← ok-injective e) (
        Appended-Builds (on_window u) d r.0 r.1 v (append_fc_udf-Appended u d.1 r v.0 hr)
          (rules-append_fc_udf u d.1 r hr) (append_fc_udf-Keeps u d.1 r hr))

  pub Builds-nil : (d : Draft) → IsDraft d → Builds [] d d
  Builds-nil d v = record {
    extends = λ i c e. e;
    fits = v.0;
    selects = v.1;
    rules = refl;
    keeps = Keeps-refl d.1;
    means = (λ f. (tt, f), λ p. p.1);
  }

  All-join : (xs ys : List Condition) → All Holds xs → All Holds ys → All Holds (xs ++ ys)
  All-join [] ys p q = q
  All-join (x ∷ xs) ys p q = (p.0, All-join xs ys p.1 q)

  All-left : (xs ys : List Condition) → All Holds (xs ++ ys) → All Holds xs
  All-left [] ys p = tt
  All-left (x ∷ xs) ys p = (p.0, All-left xs ys p.1)

  All-right : (xs ys : List Condition) → All Holds (xs ++ ys) → All Holds ys
  All-right [] ys p = p
  All-right (x ∷ xs) ys p = All-right xs ys p.1

  -- One stretch of the work after another.
  pub Builds-append :
      {xs ys : List Condition} {d e f : Draft}
      → Builds xs d e
      → Builds ys e f
      → Builds (xs ++ ys) d f
  Builds-append {xs} {ys} p q = record {
    extends = λ i c h. q.extends i c (p.extends i c h);
    fits = q.fits;
    selects = q.selects;
    rules = q.rules ∙ p.rules;
    keeps = Keeps-trans p.keeps q.keeps;
    means = (
      λ fires.
          let (hy, fe) = q.means.0 fires in
          let (hx, fd) = p.means.0 fe in (All-join xs ys hx hy, fd),
      λ known. q.means.1 (All-right xs ys known.0, p.means.1 (All-left xs ys known.0, known.1)),
    );
  }

  pub Builds-IsDraft : {xs : List Condition} {d e : Draft} → Builds xs d e → IsDraft e
  Builds-IsDraft b = (b.fits, b.selects)

  -- Whatever draft the step ends with, it has asked for the conditions `xs`.
  abbrev pub Makes : List Condition → Draft → Result Draft → Type 0
  Makes xs d m = (e : Draft) → m ≡ ok e → Builds xs d e

  pub Makes-bind :
      (xs ys : List Condition) (d : Draft) (m : Result Draft) (f : Draft → Result Draft)
      → Makes xs d m
      → ((e : Draft) → IsDraft e → Makes ys e (f e))
      → Makes (xs ++ ys) d (m >>= f)
  Makes-bind xs ys d m f p q z h =
      let (e, he, hz) = >>=-eq-ok m f h in
      Builds-append (p e he) (q e (Builds-IsDraft (p e he)) z hz)

  -- A step that a test may leave out.
  pub Makes-unless :
      (test : Bool) (step : Result Draft) (xs : List Condition) (d : Draft)
      → IsDraft d
      → Makes xs d step
      → Makes (if test then [] else xs) d (if test then ok d else step)
  Makes-unless true step xs d v f e h = rw (← ok-injective h) (Builds-nil d v)
  Makes-unless false step xs d v f e h = f e h

  pub Makes-when :
      (test : Bool) (step : Result Draft) (xs : List Condition) (d : Draft)
      → IsDraft d
      → Makes xs d step
      → Makes (if test then xs else []) d (if test then step else ok d)
  Makes-when true step xs d v f e h = f e h
  Makes-when false step xs d v f e h = rw (← ok-injective h) (Builds-nil d v)
