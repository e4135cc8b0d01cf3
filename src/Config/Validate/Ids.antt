-- ===== src/Config/Validate/Ids.antt =====
-- The duplicate checks of `pw_config_validate` against pairwise difference.
use packet_wyrm.Base.{
  ℕ, ◌+◌, ◌≡◌, ◌≢◌, ◌↔◌, ap, false, none, List, [], ◌∷◌, ◌++◌, All, arith, words_eq, words_eq_sound,
  words_eq_refl, Bool-cases, inl, inr,
}
use packet_wyrm.Config.{Card, CardPort, LogicalIf}
use packet_wyrm.Config.FlowModel.{Flow}
use packet_wyrm.Config.Validate.{
  card_dups_of, check_cards, global_dups_of, global_dups_in, card_globals, local_dups_of,
  card_locals, check_ports, lif_dups_of, flow_dups_of,
}
use packet_wyrm.Config.Valid.{
  AllPairs, Differ, CardsDiffer, global_ports, all_ports, LocalsDiffer, LifsDiffer, FlowsDiffer,
}

words_ne : (xs ys : List ℕ) → (words_eq xs ys ≡ false) ↔ (xs ≢ ys)
words_ne xs ys = (
  λ h e. cc (h, words_eq_refl ys, ap (λ zs. words_eq zs ys) e),
  λ ne. elim (Bool-cases (words_eq xs ys)) [
    | inl same ↦ absurd (ne (words_eq_sound xs ys same))
    | inr differ ↦ differ
  ],
)

pub card_dups_of_iff :
    (c : Card) (j : ℕ) (ds : List Card) → (card_dups_of c j ds ≡ none) ↔ All (CardsDiffer c) ds
unfolding card_dups_of
card_dups_of_iff c j [] = ground arith
card_dups_of_iff c j (d ∷ ds) = ground (arith, words_ne c.pci d.pci, card_dups_of_iff c (j + 1) ds)

pub check_cards_iff : (i : ℕ) (cs : List Card) → (check_cards i cs ≡ none) ↔ AllPairs CardsDiffer cs
unfolding check_cards
check_cards_iff i [] = ground arith
check_cards_iff i (c ∷ cs) =
    ground (arith, card_dups_of_iff c (i + 1) cs, check_cards_iff (i + 1) cs)

All-append_iff :
    (gp : ℕ) (xs ys : List ℕ)
    → All (Differ gp) (xs ++ ys) ↔ (All (Differ gp) xs × All (Differ gp) ys)
All-append_iff gp [] ys = ground arith
All-append_iff gp (x ∷ xs) ys = ground (arith, All-append_iff gp xs ys)

global_dups_of_iff :
    (gp j pj : ℕ) (qs : List CardPort)
    → (global_dups_of gp j pj qs ≡ none) ↔ All (Differ gp) (global_ports qs)
unfolding global_dups_of
global_dups_of_iff gp j pj [] = ground arith
global_dups_of_iff gp j pj (q ∷ qs) = ground (arith, global_dups_of_iff gp j (pj + 1) qs)

global_dups_in_iff :
    (gp j : ℕ) (ds : List Card) → (global_dups_in gp j ds ≡ none) ↔ All (Differ gp) (all_ports ds)
unfolding global_dups_in
global_dups_in_iff gp j [] = ground arith
global_dups_in_iff gp j (d ∷ ds) = ground (
  arith,
  global_dups_of_iff gp j 0 d.ports,
  global_dups_in_iff gp (j + 1) ds,
  All-append_iff gp (global_ports d.ports) (all_ports ds),
)

-- The ports of a card, each against the rest of the card and the later cards.
pub card_globals_iff :
    (i pi : ℕ) (ps : List CardPort) (later : List Card)
    → AllPairs Differ (all_ports later)
    → (card_globals i pi ps later ≡ none) ↔ AllPairs Differ (global_ports ps ++ all_ports later)
unfolding card_globals
card_globals_iff i pi [] later h = ground arith
card_globals_iff i pi (p ∷ ps) later h = ground (
  arith,
  global_dups_of_iff p.global_port i (pi + 1) ps,
  global_dups_in_iff p.global_port (i + 1) later,
  All-append_iff p.global_port (global_ports ps) (all_ports later),
  card_globals_iff i (pi + 1) ps later h,
)

AllPairs-append_right : (xs ys : List ℕ) → AllPairs Differ (xs ++ ys) → AllPairs Differ ys
AllPairs-append_right [] ys h = h
AllPairs-append_right (x ∷ xs) ys h = AllPairs-append_right xs ys h.1

local_dups_of_iff :
    (p : CardPort) (i pj : ℕ) (qs : List CardPort)
    → (local_dups_of p.local_port i pj qs ≡ none) ↔ All (LocalsDiffer p) qs
unfolding local_dups_of
local_dups_of_iff p i pj [] = ground arith
local_dups_of_iff p i pj (q ∷ qs) = ground (arith, local_dups_of_iff p i (pj + 1) qs)

card_locals_iff :
    (i pi : ℕ) (ps : List CardPort) → (card_locals i pi ps ≡ none) ↔ AllPairs LocalsDiffer ps
unfolding card_locals
card_locals_iff i pi [] = ground arith
card_locals_iff i pi (p ∷ ps) =
    ground (arith, local_dups_of_iff p i (pi + 1) ps, card_locals_iff i (pi + 1) ps)

abbrev pub PortsDiffer : List Card → Type 0
PortsDiffer cs =
    AllPairs Differ (all_ports cs) × All (λ (c : Card). AllPairs LocalsDiffer c.ports) cs

pub check_ports_iff : (i : ℕ) (cs : List Card) → (check_ports i cs ≡ none) ↔ PortsDiffer cs
unfolding check_ports
check_ports_iff i [] = ground arith
check_ports_iff i (c ∷ cs) = ground (
  arith,
  check_ports_iff (i + 1) cs,
  card_globals_iff i 0 c.ports cs,
  card_locals_iff i 0 c.ports,
  AllPairs-append_right (global_ports c.ports) (all_ports cs),
)

pub lif_dups_of_iff :
    (l : LogicalIf) (j : ℕ) (ms : List LogicalIf)
    → (lif_dups_of l j ms ≡ none) ↔ All (LifsDiffer l) ms
unfolding lif_dups_of
lif_dups_of_iff l j [] = ground arith
lif_dups_of_iff l j (m ∷ ms) = ground (arith, words_ne l.name m.name, lif_dups_of_iff l (j + 1) ms)

pub flow_dups_of_iff :
    (f : Flow) (j : ℕ) (gs : List Flow) → (flow_dups_of f.id j gs ≡ none) ↔ All (FlowsDiffer f) gs
unfolding flow_dups_of
flow_dups_of_iff f j [] = ground arith
flow_dups_of_iff f j (g ∷ gs) = ground (arith, flow_dups_of_iff f (j + 1) gs)
