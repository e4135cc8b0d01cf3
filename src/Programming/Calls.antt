-- ===== src/Programming/Calls.antt =====
-- The status that the programming reports, against those of the backend's calls.
use packet_wyrm.Base.{
  ℕ, ◌≡◌, ◌⊎◌, refl, ap, inl, inr, Option, some, true, Bool-cases, List, [], ◌∷◌, length, Result,
  ok, err, Error, Status, arith,
}
use mathlib.Core.Path.{subst}
use packet_wyrm.Compiler.Tables.{FlowRow, CardProgram}
use packet_wyrm.Backend.{CardInfo, BackendOps}
use packet_wyrm.Programming.{
  Write, is_soft, worse, chk, chk_writes, chk_rows, row_list, row_count, table_writes, write_tables,
}

-- the call succeeded, or the backend does not implement it
abbrev pub Soft : Status → Type 0
Soft s = (s ≡ ok tt) ⊎ (s ≡ err Error.not_implemented)

is_soft-true : (e : Error) → is_soft e ≡ true → e ≡ Error.not_implemented
is_soft-true Error.not_implemented h = refl
is_soft-true Error.inval h = cc
is_soft-true Error.parse h = cc
is_soft-true Error.dup_card_id h = cc
is_soft-true Error.dup_global_port h = cc
is_soft-true Error.dup_logical_if h = cc
is_soft-true Error.dup_flow_id h = cc
is_soft-true Error.unknown_card h = cc
is_soft-true Error.unknown_global_port h = cc
is_soft-true Error.unknown_logical_if h = cc
is_soft-true Error.cross_card_latency h = cc
is_soft-true Error.missing_field h = cc
is_soft-true Error.out_of_range h = cc
is_soft-true Error.no_card h = cc
is_soft-true Error.no_resources h = cc
is_soft-true Error.backend h = cc
is_soft-true Error.io h = cc
is_soft-true Error.overflow h = cc
is_soft-true Error.degraded h = cc

worse-ok : (s t : Status) → worse s t ≡ ok tt → (s ≡ ok tt) × Soft t
unfolding worse
worse-ok (err w) t h = absurd (ground arith)
worse-ok (ok u) (ok v) h = (refl, inl refl)
worse-ok (ok u) (err e) h = elim (Bool-cases (is_soft e)) [
  | inl soft ↦ (refl, inr (ap (λ (x : Error). err x) (is_soft-true e soft)))
  | inr hard ↦ absurd (ground arith)
]

module _ {D : Type 0} where
  -- Every write succeeds or is not implemented, each from where the one before has left the device.
  abbrev pub SoftWrites : (ℕ → ℕ → D → Status × D) → List Write → D → Type 0
  SoftWrites write32 [] d = Unit
  SoftWrites write32 ((off, v) ∷ ws) d =
      Soft (write32 off v d).0 × SoftWrites write32 ws (write32 off v d).1

  abbrev pub SoftRows : (ℕ → FlowRow → D → Status × D) → List (ℕ × FlowRow) → D → Type 0
  SoftRows flow_write [] d = Unit
  SoftRows flow_write ((r, f) ∷ rs) d =
      Soft (flow_write r f d).0 × SoftRows flow_write rs (flow_write r f d).1

  chk_writes-ok :
      (write32 : ℕ → ℕ → D → Status × D) (ws : List Write) (s : Status) (d : D)
      → (chk_writes write32 ws (s, d)).0 ≡ ok tt
      → (s ≡ ok tt) × SoftWrites write32 ws d
  unfolding chk_writes chk
  chk_writes-ok write32 [] s d h = (h, tt)
  chk_writes-ok write32 ((off, v) ∷ ws) s d h =
      let (now, rest) =
        chk_writes-ok write32 ws (worse s (write32 off v d).0) (write32 off v d).1 h in
      let (before, soft) = worse-ok s (write32 off v d).0 now in (before, (soft, rest))

  chk_rows-ok :
      (flow_write : ℕ → FlowRow → D → Status × D) (rs : List (ℕ × FlowRow)) (s : Status) (d : D)
      → (chk_rows flow_write rs (s, d)).0 ≡ ok tt
      → (s ≡ ok tt) × SoftRows flow_write rs d
  unfolding chk_rows chk
  chk_rows-ok flow_write [] s d h = (h, tt)
  chk_rows-ok flow_write ((r, f) ∷ rs) s d h =
      let (now, rest) =
        chk_rows-ok flow_write rs (worse s (flow_write r f d).0) (flow_write r f d).1 h in
      let (before, soft) = worse-ok s (flow_write r f d).0 now in (before, (soft, rest))

  -- the device after the rows, whatever was reported
  abbrev pub after_rows : (ℕ → FlowRow → D → Status × D) → List (ℕ × FlowRow) → D → D
  after_rows flow_write [] d = d
  after_rows flow_write ((r, f) ∷ rs) d = after_rows flow_write rs (flow_write r f d).1

  chk_rows-device :
      (flow_write : ℕ → FlowRow → D → Status × D) (rs : List (ℕ × FlowRow)) (s : Status) (d : D)
      → (chk_rows flow_write rs (s, d)).1 ≡ after_rows flow_write rs d
  unfolding chk_rows chk
  chk_rows-device flow_write [] s d = refl
  chk_rows-device flow_write ((r, f) ∷ rs) s d =
      chk_rows-device flow_write rs (worse s (flow_write r f d).0) (flow_write r f d).1

  -- a backend that has every operation of the programming
  abbrev pub all_ops :
      (ℕ → ℕ → D → Status × D)
      → (ℕ → FlowRow → D → Status × D)
      → (D → Status × D)
      → Option (D → Result CardInfo × D)
      → BackendOps D
  all_ops write32 flow_write flow_commit card_info = record {
    write32 = some write32;
    card_info = card_info;
    flow_write = some flow_write;
    flow_commit = some flow_commit;
  }

  -- When a backend has all its operations and the writing of the tables reports success, every call
  -- that it made, of `flow_write`, `flow_commit` and `write32`, succeeded or was not implemented.
  pub write_tables-ok :
      (write32 : ℕ → ℕ → D → Status × D) (flow_write : ℕ → FlowRow → D → Status × D)
      (flow_commit : D → Status × D) (card_info : Option (D → Result CardInfo × D))
      (cp : CardProgram) (info : Option CardInfo) (s : Status) (d : D)
      → (write_tables (all_ops write32 flow_write flow_commit card_info) cp info (s, d)).0 ≡ ok tt
      → let rows = row_list (row_count info (length cp.flow_rows)) cp.flow_rows in
        let staged = after_rows flow_write rows d in
        (s ≡ ok tt)
        × SoftRows flow_write rows d
        × Soft (flow_commit staged).0
        × SoftWrites write32 (table_writes cp) (flow_commit staged).1
  unfolding write_tables chk
  write_tables-ok write32 flow_write flow_commit card_info cp info s d h =
      let rows = row_list (row_count info (length cp.flow_rows)) cp.flow_rows in
      let st = chk_rows flow_write rows (s, d) in
      let (committed, writes) =
        chk_writes-ok write32 (table_writes cp) (worse st.0 (flow_commit st.1).0)
          (flow_commit st.1).1 h in
      let (row_status, commit) = worse-ok st.0 (flow_commit st.1).0 committed in
      let (start, soft_rows) = chk_rows-ok flow_write rows s d row_status in
      let same = chk_rows-device flow_write rows s d in
      (
        start,
        soft_rows,
        subst (λ (x : D). Soft (flow_commit x).0) same commit,
        subst (λ (x : D). SoftWrites write32 (table_writes cp) (flow_commit x).1) same writes,
      )
