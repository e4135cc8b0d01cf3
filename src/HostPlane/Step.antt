-- ===== src/HostPlane/Step.antt =====
-- One step of the host plane, from the frame upwards.
use packet_wyrm.Base.{ℕ, ◌+◌, ◌^◌, ◌%◌, ◌<◌, refl, ap, ◌∙◌, length-set, u32, arith}
use packet_wyrm.HostPlane.{max_bindings, bump, PlaneState}
use packet_wyrm.HostPlane.Bindings.{IsPlane}
use packet_wyrm.HostPlane.Counts.{bump-sum, Advances}

-- the state with one counter changed: a frame moved, or dropped, in either direction
module _ {W : Type 0} (st : PlaneState W) (w : IsPlane st.hp) (b : ℕ) (lt : b < max_bindings)
    (small : st.moved + 1 < 2 ^ 31) (world : W) where
  abbrev pub punted : PlaneState W
  punted = record {
    hp = record st.hp { punt_to_tap_ok = bump st.hp.punt_to_tap_ok b };
    moved = u32 (st.moved + 1);
    world = world;
  }

  pub punted-Advances : Advances 1 st punted
  punted-Advances = record {
    frames = 1;
    bound = omega arith;
    moved = omega arith;
    counted = omega (arith, bump-sum st.hp.punt_to_tap_ok b (omega (arith, w.punt_ok)));
    bindings = refl;
    plane = record {
      few = w.few;
      distinct = w.distinct;
      punt_ok = length-set st.hp.punt_to_tap_ok b _ ∙ w.punt_ok;
      punt_dropped = w.punt_dropped;
      tap_ok = w.tap_ok;
      tap_dropped = w.tap_dropped;
    };
  }

  abbrev pub punt_dropped : PlaneState W
  punt_dropped = record {
    hp = record st.hp { punt_to_tap_dropped = bump st.hp.punt_to_tap_dropped b };
    moved = st.moved;
    world = world;
  }

  pub punt_dropped-Advances : Advances 1 st punt_dropped
  punt_dropped-Advances = record {
    frames = 0;
    bound = omega arith;
    moved = omega arith;
    counted = ap (λ (n : ℕ). n % 2 ^ 64) (omega arith);
    bindings = refl;
    plane = record {
      few = w.few;
      distinct = w.distinct;
      punt_ok = w.punt_ok;
      punt_dropped = length-set st.hp.punt_to_tap_dropped b _ ∙ w.punt_dropped;
      tap_ok = w.tap_ok;
      tap_dropped = w.tap_dropped;
    };
  }

  abbrev pub injected : PlaneState W
  injected = record {
    hp = record st.hp { tap_to_fpga_ok = bump st.hp.tap_to_fpga_ok b };
    moved = u32 (st.moved + 1);
    world = world;
  }

  pub injected-Advances : Advances 1 st injected
  injected-Advances = record {
    frames = 1;
    bound = omega arith;
    moved = omega arith;
    counted = omega (arith, bump-sum st.hp.tap_to_fpga_ok b (omega (arith, w.tap_ok)));
    bindings = refl;
    plane = record {
      few = w.few;
      distinct = w.distinct;
      punt_ok = w.punt_ok;
      punt_dropped = w.punt_dropped;
      tap_ok = length-set st.hp.tap_to_fpga_ok b _ ∙ w.tap_ok;
      tap_dropped = w.tap_dropped;
    };
  }

  abbrev pub tap_dropped : PlaneState W
  tap_dropped = record {
    hp = record st.hp { tap_to_fpga_dropped = bump st.hp.tap_to_fpga_dropped b };
    moved = st.moved;
    world = world;
  }

  pub tap_dropped-Advances : Advances 1 st tap_dropped
  tap_dropped-Advances = record {
    frames = 0;
    bound = omega arith;
    moved = omega arith;
    counted = ap (λ (n : ℕ). n % 2 ^ 64) (omega arith);
    bindings = refl;
    plane = record {
      few = w.few;
      distinct = w.distinct;
      punt_ok = w.punt_ok;
      punt_dropped = w.punt_dropped;
      tap_ok = w.tap_ok;
      tap_dropped = length-set st.hp.tap_to_fpga_dropped b _ ∙ w.tap_dropped;
    };
  }
