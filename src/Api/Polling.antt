-- ===== src/Api/Polling.antt =====
-- The functions that let finished requests call their callbacks: `eio_event_loop` and `eio_poll` of
-- php8/php_eio.c. What libeio does in a round is a parameter.
use pecl_eio.Base.{
  ℕ, zero, suc, ◌<◌, ◌≡◌, refl, Option, none, some, arith, ◌==◌, ◌>>=◌, Bool-cases, inl, inr,
}
use pecl_eio.Base.Int.{ℤ}
use pecl_eio.Base.Returns
use pecl_eio.Base.Returns.{Returns, returns}
use pecl_eio.Process.{event_loop}
use pecl_eio.World.{World, Ret, true_value}

-- libeio: `nreqs` counts the requests in flight, `poll` is `eio_poll`, with the callbacks that it
-- calls; `none` is a fault.
pub record Polls : Type 0 where
  pub nreqs : World → ℕ
  pub poll : World → Option (ℤ × World)

module _ (l : Polls) where
  -- `RETURN_LONG(eio_poll());`
  unfoldable pub eio_poll : World → Option (ℤ × World)
  eio_poll w = l.poll w

  abbrev pub in_flight : Option World → ℕ
  in_flight none = 0
  in_flight (some w) = l.nreqs w

  -- A round of `php_eio_event_loop`: the result of `eio_poll` is not used.
  abbrev pub round : Option World → Option World
  round o = o >>= λ w. l.poll w >>= λ (n, w'). some w'

  -- `php_eio_event_loop(); RETURN_TRUE;`
  unfoldable pub eio_event_loop : ℕ → World → Option (Ret × World)
  eio_event_loop fuel w =
      event_loop in_flight round fuel (some w) >>= λ o. o >>= λ w'. some (true_value, w')

  -- An invariant of the rounds, and a measure of the work that is left.
  pub record Progress (I : World → Type 0) (work : World → ℕ) : Type 0 where
    pub keeps :
        (w : World)
        → I w
        → 0 < l.nreqs w
        → Returns (λ out. I out.1 × (work out.1 < work w)) (l.poll w)

  -- The loop is over: it returned TRUE, nothing is in flight, and the invariant holds.
  abbrev pub Drained : (World → Type 0) → Ret × World → Type 0
  Drained I (ret, w) = (ret ≡ true_value) × (l.nreqs w ≡ 0) × I w

  -- For any invariant of the world, where each round of `eio_poll` with requests in flight returns
  -- without a fault, keeps the invariant and lowers some measure of the work: from a world with the
  -- invariant, `eio_event_loop` with fuel above that measure ends without a fault, returns TRUE,
  -- leaves no request in flight, and keeps the invariant.
  pub eio_event_loop-Drained :
      (I : World → Type 0) (work : World → ℕ)
      → Progress I work
      → (fuel : ℕ) (w : World) → I w
      → work w < fuel
      → Returns (Drained I) (eio_event_loop fuel w)
  unfolding eio_event_loop event_loop
  eio_event_loop-Drained I work p zero w i h = absurd (omega arith)
  eio_event_loop-Drained I work p (suc fuel) w i h = elim (Bool-cases (l.nreqs w == 0)) [
    | inl e ↦ rw e (returns (refl, ground arith, i))
    | inr e ↦ rw e (
        let (out, e', (j, less)) = Returns.taken (p.keeps w i (ground arith)) in
        rw e' (eio_event_loop-Drained I work p fuel out.1 j (omega (arith, less, h))))
  ]
