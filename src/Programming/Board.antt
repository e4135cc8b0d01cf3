-- ===== src/Programming/Board.antt =====
-- Programming a card whose backend stores what it is given: rows are staged by `flow_write` and
-- taken over by `flow_commit`, and `write32` stores a word (backend.h).
use packet_wyrm.Base.{
  ℕ, zero, suc, ◌+◌, ◌≡◌, ◌≤◌, ◌<◌, refl, ap, ◌∙◌, some, Bool, false, List, [], ◌∷◌, map, length,
  get_or, range_from, ◌==◌, if◌then◌else◌, arith, ok, err, Error, Status,
}
use native.Mathlib.Decide.{ℕ_discrete}
use packet_wyrm.Compiler.Tables.{FlowRow, CardProgram, flow_table_rows, zero_row}
use packet_wyrm.Backend.{CardInfo, BackendOps}
use packet_wyrm.Programming.{
  Write, precheck, table_writes, row_list, row_count, over_capacity, worse, chk, chk_writes,
  chk_rows, read_info, missing_ops, write_tables, program_checked, program_card_tables,
}
use packet_wyrm.Programming.Registers.{Registers, poke, stored}
use packet_wyrm.Programming.Written.{Holds, table_writes-Holds}

pub record Board : Type 0 where
  pub info : CardInfo
  pub regs : Registers
  pub staged : ℕ → FlowRow
  pub live : ℕ → FlowRow

abbrev pub stage : ℕ → FlowRow → (ℕ → FlowRow) → ℕ → FlowRow
stage r f rows = λ i. if i == r then f else rows i

abbrev pub board_write32 : ℕ → ℕ → Board → Status × Board
board_write32 off v b = (ok tt, record b { regs = poke off v b.regs })

abbrev pub board_flow_write : ℕ → FlowRow → Board → Status × Board
board_flow_write r f b = (ok tt, record b { staged = stage r f b.staged })

abbrev pub board_flow_commit : Board → Status × Board
board_flow_commit b = (ok tt, record b { live = b.staged })

abbrev pub board_ops : BackendOps Board
board_ops = record {
  write32 = some board_write32;
  card_info = some (λ (b : Board). (ok b.info, b));
  flow_write = some board_flow_write;
  flow_commit = some board_flow_commit;
}

abbrev staged_all : List (ℕ × FlowRow) → (ℕ → FlowRow) → ℕ → FlowRow
staged_all [] rows = rows
staged_all ((r, f) ∷ rs) rows = staged_all rs (stage r f rows)

chk_writes-board :
    (ws : List Write) (b : Board)
    → chk_writes board_write32 ws (ok tt, b) ≡ (ok tt, record b { regs = stored ws b.regs })
unfolding chk_writes chk worse
chk_writes-board [] b = refl
chk_writes-board ((off, v) ∷ ws) b = chk_writes-board ws (record b { regs = poke off v b.regs })

chk_rows-board :
    (rs : List (ℕ × FlowRow)) (b : Board)
    → chk_rows board_flow_write rs (ok tt, b)
      ≡ (ok tt, record b { staged = staged_all rs b.staged })
unfolding chk_rows chk worse
chk_rows-board [] b = refl
chk_rows-board ((r, f) ∷ rs) b = chk_rows-board rs (record b { staged = stage r f b.staged })

-- the rows of `row_list`, from `from` on
abbrev rows_from : ℕ → ℕ → List FlowRow → List (ℕ × FlowRow)
rows_from from n rows = map (λ r. (r, get_or rows r zero_row)) (range_from from n)

staged-earlier :
    (from n i : ℕ) (rows : List FlowRow) (was : ℕ → FlowRow)
    → i < from
    → staged_all (rows_from from n rows) was i ≡ was i
staged-earlier from zero i rows was lt = refl
staged-earlier from (suc n) i rows was lt =
    staged-earlier (from + 1) n i rows _ (omega arith) ∙ ground arith

staged-rows :
    (from n i : ℕ) (rows : List FlowRow) (was : ℕ → FlowRow)
    → from ≤ i
    → i < from + n
    → staged_all (rows_from from n rows) was i ≡ get_or rows i zero_row
staged-rows from zero i rows was lo hi = absurd (omega arith)
staged-rows from (suc n) i rows was lo hi = elim (ℕ_discrete i from) [
  | no ne ↦ staged-rows (from + 1) n i rows _ (omega arith) (omega arith)
  | yes e ↦ staged-earlier (from + 1) n i rows _ (omega arith) ∙ ground arith
]

-- What a programmed board holds: the windows of the tables, and every row the card has, the unused
-- ones disabled.
pub record Programmed (cp : CardProgram) (b : Board) : Type 0 where
  pub windows : Holds cp b.regs
  pub rows : (i : ℕ) → i < b.info.num_local_flows → b.live i ≡ get_or cp.flow_rows i zero_row

write_tables-board :
    (cp : CardProgram) (b : Board)
    → length cp.flow_rows ≤ b.info.num_local_flows
    → b.info.num_local_flows ≤ flow_table_rows
    → (b' : Board) × (write_tables board_ops cp (some b.info) (ok tt, b) ≡ (ok tt, b'))
      × Programmed cp b'
unfolding write_tables chk worse row_list row_count
write_tables-board cp b few fits =
    let n = row_count (some b.info) (length cp.flow_rows) in
    let count : n ≡ b.info.num_local_flows = ground arith in
    let rows = staged_all (rows_from 0 n cp.flow_rows) b.staged in
    let b1 : Board = record b { staged = rows } in
    let b2 : Board = record b1 { live = rows } in
    (
      record b2 { regs = stored (table_writes cp) b.regs },
      ap
            (λ (st : Status × Board).
              chk_writes board_write32 (table_writes cp) (chk board_flow_commit st))
            (chk_rows-board (rows_from 0 n cp.flow_rows) b)
          ∙ chk_writes-board (table_writes cp) b2,
      record {
        windows = table_writes-Holds cp b.regs;
        rows = λ i lt. staged-rows 0 n i cp.flow_rows b.staged (omega arith) (omega arith);
      },
    )

-- When the counts and indexes of a program pass the first checks and its rows fit the card, the
-- programming reports success, and whatever the card held before: every row of the card is the
-- program's or disabled; the comparators, the user-defined fields and the three words of each rule
-- are the program's; every unused rule slot, flow id and hash bucket is invalid, and the used ones
-- have the words of their last entry; and when there is a hash entry, so are the key mask and the seed
-- the program's, and the key words of each used bucket those of its last entry.
pub program_card_tables-board :
    (cp : CardProgram) (b : Board)
    → precheck cp ≡ ok tt
    → length cp.flow_rows ≤ b.info.num_local_flows
    → b.info.num_local_flows ≤ flow_table_rows
    → (b' : Board) × (program_card_tables board_ops cp b ≡ (ok tt, b')) × Programmed cp b'
unfolding program_card_tables program_checked read_info over_capacity missing_ops
program_card_tables-board cp b fits few small =
    let (b', e, p) = write_tables-board cp b few small in
    let room : over_capacity (some b.info) (length cp.flow_rows) ≡ false = ground arith in
    let whole : missing_ops board_ops cp ≡ false = ground arith in
    (
      b',
      ap (λ (s : Status). elim s [ err e ↦ (err e, b) | ok u ↦ body ]) fits
          ∙ ap
              (λ (c : Bool).
                if c then (err Error.no_resources, b) else go (missing_ops board_ops cp))
              room
          ∙ ap go whole
          ∙ e,
      p,
    )
  where
    go : Bool → Status × Board
    go c =
        write_tables board_ops cp (some b.info) (if c then err Error.not_implemented else ok tt, b)

    body : Status × Board
    body =
        if over_capacity (some b.info) (length cp.flow_rows)
        then (err Error.no_resources, b)
        else go (missing_ops board_ops cp)
