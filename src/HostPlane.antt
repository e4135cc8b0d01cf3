-- ===== src/HostPlane.antt =====
-- The host packet plane: sw/libpacketwyrm/src/host_plane.c and include/packetwyrm/host_plane.h.
-- `W` is what lies outside: the card behind the backend, and the TAP descriptors. Its
-- operations are parameters.
pub mod Bindings
pub mod Counts
pub mod Step
pub mod Loops
use packet_wyrm.Base.{
  ℕ, zero, suc, ◌+◌, Option, none, some, Bool, List, [], ◌∷◌, ◌++◌, length, get_or, set, replicate,
  u32, u64, ◌==◌, leb, if◌then◌else◌, Result, ok, err, Status, Error,
}

abbrev pub max_bindings : ℕ
max_bindings = 32

pub record HostBinding : Type 0 where
  pub logical_if_id : ℕ
  pub fd : ℕ
  pub egress_local_port : ℕ

-- The counters are arrays of `max_bindings` words.
pub record HostPlane : Type 0 where
  pub bindings : List HostBinding
  pub punt_to_tap_ok : List ℕ
  pub punt_to_tap_dropped : List ℕ
  pub tap_to_fpga_ok : List ℕ
  pub tap_to_fpga_dropped : List ℕ
  pub punt_unknown_lif : ℕ

-- `pw_host_plane_init`
unfoldable pub init : HostPlane
init = record {
  bindings = [];
  punt_to_tap_ok = replicate max_bindings 0;
  punt_to_tap_dropped = replicate max_bindings 0;
  tap_to_fpga_ok = replicate max_bindings 0;
  tap_to_fpga_dropped = replicate max_bindings 0;
  punt_unknown_lif = 0;
}

-- `find_binding`, from index `i` on; `none` is -1
unfoldable pub find_binding : ℕ → ℕ → List HostBinding → Option ℕ
find_binding lif i [] = none
find_binding lif i (b ∷ bs) = if b.logical_if_id == lif then some i else find_binding lif (i + 1) bs

-- `pw_host_plane_bind`; a negative descriptor is `none`
unfoldable pub bind : ℕ → Option ℕ → ℕ → HostPlane → Result HostPlane
unfolding find_binding
bind lif none egress hp = err Error.inval
bind lif (some fd) egress hp = elim (find_binding lif 0 hp.bindings) [
  | some i ↦ err Error.dup_logical_if
  | none ↦
      if leb max_bindings (length hp.bindings)
      then err Error.no_resources
      else ok (record hp { bindings = hp.bindings ++ binding ∷ [] })
]
  where
    binding : HostBinding
    binding = record { logical_if_id = lif; fd = fd; egress_local_port = egress }

-- `counter[b]++`, on a 64-bit word
abbrev pub bump : List ℕ → ℕ → List ℕ
bump counter b = set counter b (u64 (get_or counter b 0 + 1))

-- What `slow_path_rx` returns: a frame and its interface, or no more than 0.
pub data Rx : Type 0 where
  idle : Rx
  frame : ℕ → List ℕ → Rx

-- `tap_write` says whether the whole frame was written; `tap_read` gives `none` for n <= 0.
pub record Outside (W : Type 0) : Type 0 where
  pub slow_path_rx : Option (W → Rx × W)
  pub slow_path_tx : Option (List ℕ → ℕ → ℕ → W → Status × W)
  pub tap_write : ℕ → List ℕ → W → Bool × W
  pub tap_read : ℕ → W → Option (List ℕ) × W

pub record PlaneState (W : Type 0) : Type 0 where
  pub hp : HostPlane
  pub moved : ℕ
  pub world : W

abbrev pub no_binding : HostBinding
no_binding = record { logical_if_id = 0; fd = 0; egress_local_port = 0 }

module _ {W : Type 0} (out : Outside W) where
  -- one punted frame, to the TAP of its interface
  unfoldable pub deliver : ℕ → List ℕ → PlaneState W → PlaneState W
  unfolding find_binding
  deliver lif buf st = elim (find_binding lif 0 hp.bindings) [
    | none ↦ record st { hp = record hp { punt_unknown_lif = u64 (hp.punt_unknown_lif + 1) } }
    | some b ↦
        let (whole, w) = out.tap_write (get_or hp.bindings b no_binding).fd buf st.world in
        if whole
        then record {
          hp = record hp { punt_to_tap_ok = bump hp.punt_to_tap_ok b };
          moved = u32 (st.moved + 1);
          world = w;
        }
        else record {
          hp = record hp { punt_to_tap_dropped = bump hp.punt_to_tap_dropped b };
          moved = st.moved;
          world = w;
        }
  ]
    where
      hp : HostPlane
      hp = st.hp

  -- punt RX -> TAP, `n` rounds at most
  unfoldable pub rx_loop : (W → Rx × W) → ℕ → PlaneState W → PlaneState W
  unfolding deliver
  rx_loop rx zero st = st
  rx_loop rx (suc n) st =
      let (r, w) = rx st.world in
      elim r [
        | idle ↦ record st { world = w }
        | frame lif buf ↦ rx_loop rx n (deliver lif buf (record st { world = w }))
      ]

  -- one frame read from the TAP of binding `b`
  unfoldable pub inject :
      (List ℕ → ℕ → ℕ → W → Status × W) → ℕ → HostBinding → List ℕ → PlaneState W → PlaneState W
  inject tx b bd buf st =
      let (r, w) = tx buf bd.logical_if_id bd.egress_local_port st.world in
      elim r [
        | ok u ↦ record {
          hp = record hp { tap_to_fpga_ok = bump hp.tap_to_fpga_ok b };
          moved = u32 (st.moved + 1);
          world = w;
        }
        | err e ↦ record {
          hp = record hp { tap_to_fpga_dropped = bump hp.tap_to_fpga_dropped b };
          moved = st.moved;
          world = w;
        }
      ]
    where
      hp : HostPlane
      hp = st.hp

  -- TAP -> FPGA TX of one binding, `n` rounds at most
  unfoldable pub tx_rounds :
      (List ℕ → ℕ → ℕ → W → Status × W) → ℕ → HostBinding → ℕ → PlaneState W → PlaneState W
  unfolding inject
  tx_rounds tx b bd zero st = st
  tx_rounds tx b bd (suc n) st =
      let (r, w) = out.tap_read bd.fd st.world in
      elim r [
        | none ↦ record st { world = w }
        | some buf ↦ tx_rounds tx b bd n (inject tx b bd buf (record st { world = w }))
      ]

  -- the loop over the bindings, from index `b` on
  unfoldable pub tx_loop :
      (List ℕ → ℕ → ℕ → W → Status × W) → ℕ → ℕ → List HostBinding → PlaneState W → PlaneState W
  unfolding tx_rounds
  tx_loop tx n b [] st = st
  tx_loop tx n b (bd ∷ bds) st = tx_loop tx n (b + 1) bds (tx_rounds tx b bd n st)

  -- `pw_host_plane_step`, at a `max_per_dir` that is not negative (a negative one is as 0). `moved`
  -- is the word of the `int`
  unfoldable pub step : ℕ → HostPlane → W → PlaneState W
  unfolding rx_loop tx_loop
  step max_per_dir hp w =
      let received : PlaneState W = elim (out.slow_path_rx) [
        | none ↦ start
        | some rx ↦ rx_loop rx max_per_dir start
      ] in
      elim (out.slow_path_tx) [
        | none ↦ received
        | some tx ↦ tx_loop tx max_per_dir 0 received.hp.bindings received
      ]
    where
      start : PlaneState W
      start = record { hp = hp; moved = 0; world = w }
