-- ===== src/Examples/Hardware.antt =====
-- The theorems about the tables of a card on the small configuration and a small board.
use packet_wyrm.Base.{
  Status, ℕ, ◌≡◌, ◌≢◌, ◌≤◌, ◌↔◌, refl, none, some, [], ◌∷◌, All, length, get_or, ok, err, Error,
  arith,
}
use packet_wyrm.Config.{PortRef}
use packet_wyrm.Config.Resolve.{resolve_port}
use packet_wyrm.Config.Validate.{validate}
use packet_wyrm.Config.Validate.Sound.{validate_iff}
use packet_wyrm.Config.Valid.{IsValid, all_ports}
use packet_wyrm.Config.Resolve.Sound.{Declares, resolve_port-ok, resolve_port-err}
use packet_wyrm.Compiler.{flow_compile}
use packet_wyrm.Compiler.Tables.{CardProgram, FcRule, HashEntry, MapEntry, empty_card}
use packet_wyrm.Compiler.Append.{card_slot, find_cmp}
use packet_wyrm.Compiler.Hash.{hash_index, relax_mask}
use packet_wyrm.Compiler.Seed.{and_words, seed_of}
use packet_wyrm.Programming.{
  write_tables, row_list, row_count, table_writes, precheck, program_card_tables,
}
use packet_wyrm.Programming.Calls.{Soft, SoftRows, SoftWrites, after_rows, all_ops, write_tables-ok}
use packet_wyrm.Programming.Fits.{Fits, program_card_tables-unfit}
use packet_wyrm.Programming.Board.{
  board_write32, board_flow_write, board_flow_commit, Board, board_ops, Programmed,
  program_card_tables-board,
}
use packet_wyrm.Pipeline.{flow_compile-Programmed}
use packet_wyrm.Examples.{demo, demo_out}
use packet_wyrm.Examples.Compiled.{demo_compiled}

validate_iff_example : (validate demo ≡ none) ↔ IsValid demo
validate_iff_example = validate_iff demo

abbrev port_0 : PortRef
port_0 = record { card_id = 1; local_port_id = 0; global_port_id = 2 }

resolves : resolve_port demo 2 ≡ ok port_0
unfolding resolve_port
resolves = refl

resolve_port-ok_example : Declares demo.cards 2 port_0
resolve_port-ok_example = resolve_port-ok demo 2 port_0 resolves

no_port : resolve_port demo 9 ≡ err Error.unknown_global_port
unfolding resolve_port
no_port = refl

resolve_port-err_example :
    (Error.unknown_global_port ≡ Error.unknown_global_port)
    × All (λ (g : ℕ). g ≢ 9) (all_ports demo.cards)
resolve_port-err_example = resolve_port-err demo 9 Error.unknown_global_port no_port

-- a board with eight flow slots and registers full of ones
abbrev demo_board : Board
demo_board = record {
  info = record {
    device_id = 0;
    version = 1;
    build_id = 0;
    git_hash = 0;
    capabilities = 0;
    num_local_ports = 2;
    num_local_flows = 8;
    num_logical_interfaces = 32;
    num_classifier_entries = 32;
  };
  regs = λ a. 0xFFFFFFFF;
  staged = λ i. empty_row;
  live = λ i. empty_row;
}
  where
    empty_row : packet_wyrm.Compiler.Tables.FlowRow
    empty_row = packet_wyrm.Compiler.Tables.zero_row

-- the program of card 0
unfoldable demo_card : CardProgram
unfolding demo_out
demo_card = get_or demo_out.per_card 0 (empty_card 0)

card_found : card_slot 0 demo_out.per_card ≡ some demo_card
unfolding flow_compile validate resolve_port demo_card demo_out find_cmp hash_index and_words
    relax_mask seed_of card_slot
card_found = refl

few_rows : length demo_card.flow_rows ≤ 8
unfolding flow_compile validate resolve_port demo_card demo_out find_cmp hash_index and_words
    relax_mask seed_of
few_rows = omega arith

checked : precheck demo_card ≡ ok tt
unfolding flow_compile validate resolve_port demo_card demo_out find_cmp hash_index and_words
    relax_mask seed_of precheck
checked = refl

flow_compile-Programmed_example :
    (b' : Board) × (program_card_tables board_ops demo_card demo_board ≡ (ok tt, b'))
    × Programmed demo_card b'
flow_compile-Programmed_example =
    flow_compile-Programmed demo demo_out 0 demo_card demo_board demo_compiled card_found few_rows
      (omega arith)

program_card_tables-board_example :
    (b' : Board) × (program_card_tables board_ops demo_card demo_board ≡ (ok tt, b'))
    × Programmed demo_card b'
program_card_tables-board_example =
    program_card_tables-board demo_card demo_board checked few_rows (omega arith)

-- a map entry behind the map
abbrev wild_card : CardProgram
wild_card = record (empty_card 0) {
  map_entries = record { flow_id = 1024; local_flow_id = 0 } ∷ [];
}

wild-unfit : ¬ Fits wild_card
wild-unfit f = absurd (omega (arith, f.maps.0))

program_card_tables-unfit_example :
    program_card_tables board_ops wild_card demo_board ≡ (err Error.inval, demo_board)
program_card_tables-unfit_example =
    program_card_tables-unfit board_ops wild_card demo_board wild-unfit

abbrev no_error : Status
no_error = ok tt

-- on the board, every call succeeds
board_accepts :
    (write_tables
      (all_ops board_write32 board_flow_write board_flow_commit none)
      (empty_card 0)
      none
      (no_error, demo_board)).0
    ≡ ok tt
unfolding write_tables
board_accepts = refl

write_tables-ok_example :
    let rows = row_list (row_count none 0) [] in
    let staged = after_rows board_flow_write rows demo_board in
    (no_error ≡ ok tt)
    × SoftRows board_flow_write rows demo_board
    × Soft (board_flow_commit staged).0
    × SoftWrites board_write32 (table_writes (empty_card 0)) (board_flow_commit staged).1
write_tables-ok_example =
    write_tables-ok board_write32 board_flow_write board_flow_commit none (empty_card 0) none
      no_error demo_board board_accepts
