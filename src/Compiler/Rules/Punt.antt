-- ===== src/Compiler/Rules/Punt.antt =====
-- The punt rules of a logical interface: one for each protocol that it asks for, which matches
-- exactly the frames that the protocol's fields describe.
use packet_wyrm.Base.{ℕ, ◌≡◌, ◌↔◌, Option, some, List, [], ◌∷◌, ◌++◌, if◌then◌else◌, ◌==◌, arith}
use packet_wyrm.Base.Bits.{test_bit-zero}
use packet_wyrm.Config.{LogicalIf, PortRef}
use packet_wyrm.Compiler.Tables.{FcCmp, FcUdf, CardProgram}
use packet_wyrm.Compiler.Append.{Draft, need_cmp, need_udf}
use packet_wyrm.Compiler.Rules.{
  PuntMatch, comparator, src_ingress, src_vlan, src_ethertype, src_l3_proto, need_cmp_if,
  punt_conditions,
}
use packet_wyrm.Compiler.Rules.Meaning.{Condition, on_field, on_window, Selects, Extends, Fires}
use packet_wyrm.Compiler.Rules.Drafts.{
  need_cmp-Builds, need_udf-Builds, IsDraft, Makes, Makes-bind, Makes-unless,
}

-- A condition on a field that is compared only where the value is not zero.
abbrev pub wanted : ℕ → Condition → List Condition
wanted v c = if v == 0 then [] else c ∷ []

-- What a frame must have to be punted to `l`: its ingress port, the VLAN of the interface, and
-- the fields of the protocol.
abbrev pub punt_needs : PortRef → LogicalIf → PuntMatch → List Condition
punt_needs ref l m =
    (on_field (comparator src_ingress 0xF ref.local_port_id) ∷ [])
    ++ (wanted l.vlan (on_field (comparator src_vlan 0x0FFF l.vlan))
        ++ (wanted m.eth (on_field (comparator src_ethertype 0xFFFF m.eth))
            ++ (wanted m.l3p (on_field (comparator src_l3_proto 0xFF m.l3p))
                ++ (wanted m.l4port (on_field (comparator m.l4lane 0xFFFF m.l4port))
                    ++ wanted m.udf_val (
                        on_window
                          (record { offset = m.udf_off; mask = 0xFFFF0000; value = m.udf_val }))))))

-- Comparators added later do not change what a rule matches.
pub Fires-Extends :
    (Holds : Condition → Type 0) (care : ℕ) (cp cp' : CardProgram)
    → Selects care cp
    → Extends cp cp'
    → Fires Holds care cp' ↔ Fires Holds care cp
Fires-Extends Holds care cp cp' sel ext = (
  λ fires i e.
      let (x, hx) = sel i e in
      let (y, hy, holds) = fires i e in (x, hx, rw (same _ (ext i x hx) hy) holds),
  λ fires i e. let (x, hx, holds) = fires i e in (x, ext i x hx, holds),
)
  where
    same : (o : Option Condition) {c d : Condition} → o ≡ some c → o ≡ some d → c ≡ d
    same o p q = cc

pub Selects-zero : (cp : CardProgram) → Selects 0 cp
Selects-zero cp i e = absurd (omega (arith, test_bit-zero i))

pub Fires-zero : (Holds : Condition → Type 0) (cp : CardProgram) → Fires Holds 0 cp
Fires-zero Holds cp i e = absurd (omega (arith, test_bit-zero i))

module _ (Holds : Condition → Type 0) where
  pub need_cmp_if-Makes :
      (v : ℕ) (c : FcCmp) (d : Draft)
      → IsDraft Holds d
      → Makes Holds (wanted v (on_field c)) d (need_cmp_if v c d)
  need_cmp_if-Makes v c d w =
      Makes-unless Holds (v == 0) (need_cmp c d) (on_field c ∷ []) d w (need_cmp-Builds Holds c d w)

  pub punt_conditions-Makes :
      (ref : PortRef) (l : LogicalIf) (m : PuntMatch) (d : Draft)
      → IsDraft Holds d
      → Makes Holds (punt_needs ref l m) d (punt_conditions ref l m d)
  unfolding punt_conditions
  punt_conditions-Makes ref l m d w =
      Makes-bind Holds _ _ d _ _ (need_cmp-Builds Holds _ d w) λ d1 w1.
        Makes-bind Holds _ _ d1 _ _ (need_cmp_if-Makes l.vlan _ d1 w1) λ d2 w2.
          Makes-bind Holds _ _ d2 _ _ (need_cmp_if-Makes m.eth _ d2 w2) λ d3 w3.
            Makes-bind Holds _ _ d3 _ _ (need_cmp_if-Makes m.l3p _ d3 w3) λ d4 w4.
              Makes-bind Holds _ _ d4 _ _ (need_cmp_if-Makes m.l4port _ d4 w4) λ d5 w5.
                Makes-unless Holds (m.udf_val == 0) (need_udf window d5) (on_window window ∷ []) d5
                  w5 (need_udf-Builds Holds window d5 w5)
    where
      window : FcUdf
      window = record { offset = m.udf_off; mask = 0xFFFF0000; value = m.udf_val }
