-- ===== src/HostPlane/Counts.antt =====
-- The counters of the host plane against the frames that it moves.
use packet_wyrm.Base.{
  ℕ, zero, suc, ◌+◌, ◌^◌, ◌%◌, ◌≡◌, ◌≤◌, ◌<◌, ap, ◌∙◌, List, [], ◌∷◌, length, arith,
}
use packet_wyrm.HostPlane.{HostPlane, bump, PlaneState}
use packet_wyrm.HostPlane.Bindings.{IsPlane}

abbrev pub sum : List ℕ → ℕ
sum [] = 0
sum (x ∷ xs) = x + sum xs

pub bump-sum :
    (xs : List ℕ) (b : ℕ) → b < length xs → sum (bump xs b) % 2 ^ 64 ≡ (sum xs + 1) % 2 ^ 64
bump-sum [] b h = absurd (omega arith)
bump-sum (x ∷ xs) zero h = omega arith
bump-sum (x ∷ xs) (suc b) h = omega (arith, bump-sum xs b (omega arith))

-- the frames that the plane has moved, in both directions
abbrev pub total : HostPlane → ℕ
total hp = sum hp.punt_to_tap_ok + sum hp.tap_to_fpga_ok

-- At most `limit` frames are moved, each one counted, and no binding changes.
pub record Advances {W : Type 0} (limit : ℕ) (st st' : PlaneState W) : Type 0 where
  pub frames : ℕ
  pub bound : frames ≤ limit
  pub moved : st'.moved ≡ st.moved + frames
  pub counted : total st'.hp % 2 ^ 64 ≡ (total st.hp + frames) % 2 ^ 64
  pub bindings : st'.hp.bindings ≡ st.hp.bindings
  pub plane : IsPlane st'.hp

module _ {W : Type 0} where
  pub Advances-refl :
      (st st' : PlaneState W)
      → IsPlane st.hp
      → st'.hp ≡ st.hp
      → st'.moved ≡ st.moved
      → Advances 0 st st'
  Advances-refl st st' w e m = record {
    frames = 0;
    bound = omega arith;
    moved = omega arith;
    counted = rw e (ap (λ (n : ℕ). n % 2 ^ 64) (omega arith));
    bindings = ap (λ (hp : HostPlane). hp.bindings) e;
    plane = rw e w;
  }

  pub Advances-trans :
      (m n : ℕ) (a b c : PlaneState W) → Advances m a b → Advances n b c → Advances (m + n) a c
  Advances-trans m n a b c p q = record {
    frames = p.frames + q.frames;
    bound = omega (arith, p.bound, q.bound);
    moved = omega (arith, p.moved, q.moved);
    counted = omega (arith, p.counted, q.counted);
    bindings = q.bindings ∙ p.bindings;
    plane = q.plane;
  }

  pub Advances-weaken : (m n : ℕ) (a b : PlaneState W) → m ≤ n → Advances m a b → Advances n a b
  Advances-weaken m n a b le p = record {
    frames = p.frames;
    bound = omega (arith, p.bound);
    moved = p.moved;
    counted = p.counted;
    bindings = p.bindings;
    plane = p.plane;
  }
