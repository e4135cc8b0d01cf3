-- ===== src/Examples/Plane.antt =====
-- The theorems about the host plane and the statistics on small inputs.
use packet_wyrm.Base.{
  ℕ, suc, zero, ◌≡◌, ◌≢◌, ◌≤◌, ◌⊎◌, refl, true, Option, none, some, List, [], ◌∷◌, All, length,
  get_elem?, replicate, ok, err, Error, arith,
}
use packet_wyrm.HostPlane.{
  HostBinding, HostPlane, Rx, idle, frame, Outside, max_bindings, init, bind,
}
use packet_wyrm.HostPlane.Bindings.{Bound, init-IsPlane, bind-ok, bind-err}
use packet_wyrm.Compiler.Tables.{FlowMeta, zero_meta}
use packet_wyrm.Backend.{FlowStats}
use packet_wyrm.Stats.{GlobalFlowStats, aggregate, tx_side}
use packet_wyrm.Stats.Entries.{Aggregated, aggregate-ok}

-- the plane with interface 7 bound
unfoldable one_bound : HostPlane
unfolding bind init
one_bound = elim (bind 7 (some 5) 1 init) [ ok hp ↦ hp | err e ↦ init ]

binds : bind 7 (some 5) 1 init ≡ ok one_bound
unfolding bind init one_bound
binds = refl

bind-ok_example : Bound 7 5 1 init one_bound
bind-ok_example = bind-ok 7 5 1 init one_bound init-IsPlane binds

binds_twice : bind 7 (some 6) 2 one_bound ≡ err Error.dup_logical_if
unfolding bind init one_bound
binds_twice = refl

abbrev fd_6 : Option ℕ
fd_6 = some 6

bind-err_example :
    ((fd_6 ≡ none) × (Error.dup_logical_if ≡ Error.inval))
    ⊎ (((j : ℕ) × (b : HostBinding) × (get_elem? one_bound.bindings j ≡ some b)
          × (b.logical_if_id ≡ 7)
          × (Error.dup_logical_if ≡ Error.dup_logical_if))
        ⊎ (All (λ (b : HostBinding). b.logical_if_id ≢ 7) one_bound.bindings
            × (max_bindings ≤ length one_bound.bindings)
            × (Error.dup_logical_if ≡ Error.no_resources)))
bind-err_example = bind-err 7 fd_6 2 one_bound Error.dup_logical_if binds_twice

-- The world is the number of frames that the card still has for interface 7; the TAP takes every
-- frame and has none.
abbrev punting : Outside ℕ
punting = record {
  slow_path_rx = some next;
  slow_path_tx = none;
  tap_write = λ fd buf w. (true, w);
  tap_read = λ fd w. (none, w);
}
  where
    next : ℕ → Rx × ℕ
    next zero = (idle, zero)
    next (suc n) = (frame 7 (1 ∷ 2 ∷ []), n)

abbrev counted : ℕ → FlowStats
counted n = record {
  tx_frames = n;
  tx_bytes = n;
  rx_frames = n;
  rx_bytes = n;
  last_sequence = n;
  sequence_gap_count = 0;
  lost_packets_estimated = 0;
  duplicate_count = 0;
  out_of_order_count = 0;
  late_packet_count = 0;
  min_latency = 0;
  max_latency = 0;
  sum_latency = 0;
  sample_count = 0;
  jitter_min = 0;
  jitter_max = 0;
  jitter_sum = 0;
}

abbrev two_flows : List FlowMeta
two_flows = record zero_meta { rx_slot_valid = true } ∷ zero_meta ∷ []

abbrev four_counters : List FlowStats
four_counters = counted 1 ∷ counted 2 ∷ counted 3 ∷ counted 4 ∷ []

abbrev room : List GlobalFlowStats
room = replicate 3 (tx_side zero_meta (counted 0))

aggregate-ok_example :
    (out' : List GlobalFlowStats) × (aggregate two_flows four_counters room ≡ ok out')
    × Aggregated two_flows four_counters room out'
aggregate-ok_example =
    aggregate-ok two_flows four_counters room (omega arith) (omega arith) (omega arith)
