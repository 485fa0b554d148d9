-- ===== src/Process/Loop.antt =====
-- The event loop ends.
use pecl_eio.Base.{ℕ, zero, suc, ◌<◌, ◌≡◌, arith, ◌==◌, Bool-cases, inl, inr}
use pecl_eio.Base.Returns.{Returns, returns}
use pecl_eio.Process.{event_loop}

-- If some measure of the work falls with each round while requests are in flight, the event loop
-- ends within fuel above that measure, and no request is in flight then.
pub event_loop-done :
    {S : Type 0} (nreqs : S → ℕ) (round : S → S) (work : S → ℕ)
    → ((s : S) → 0 < nreqs s → work (round s) < work s)
    → (fuel : ℕ) (s : S) → work s < fuel
    → Returns (λ s'. nreqs s' ≡ 0) (event_loop nreqs round fuel s)
unfolding event_loop
event_loop-done nreqs round work falls zero s h = absurd (omega arith)
event_loop-done nreqs round work falls (suc fuel) s h = elim (Bool-cases (nreqs s == 0)) [
  | inl e ↦ rw e (returns (ground arith))
  | inr e ↦ rw e (event_loop-done nreqs round work falls fuel (round s) (ground (arith, falls s)))
]
