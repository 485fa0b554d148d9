-- ===== src/Ledger/Draining.antt =====
-- The event loop, over what libeio and PHP code do in its rounds: it ends, and nothing leaks.
use pecl_eio.Base.{ℕ, ◌<◌, ◌≡◌, Bool, none, some, List, [], ◌>>=◌}
use pecl_eio.Base.Int.{ℤ}
use pecl_eio.Base.Returns
use pecl_eio.Base.Returns.{Returns}
use pecl_eio.World.{World, Env, Ret, true_value}
use pecl_eio.Api.Polling.{Polls}
use pecl_eio.Ledger.{Held, data_in}
use pecl_eio.Ledger.Steps.{Op}
use pecl_eio.Ledger.Callbacks.{perform, AllFit}

-- What happens in a round of `eio_poll`: libeio counts the requests in flight, and it and PHP code
-- take the steps of `steps`.
pub record Rounds : Type 0 where
  pub nreqs : World → ℕ
  pub steps : World → List Op
  pub finished : World → ℤ

abbrev pub polls : Env → (ℤ → Bool) → Rounds → Polls
polls env cloexec r = record {
  nreqs = r.nreqs;
  poll = λ w. perform env cloexec (r.steps w) w >>= λ w'. some (r.finished w, w');
}

module _ (env : Env) (cloexec : ℤ → Bool) (does : Held → Held → Type 0) where
  -- The steps of a round may be taken where `I` holds, they keep `I`, and they lower the measure
  -- `work`. A request that carries a callback object is in flight.
  pub record Orderly (r : Rounds) (I : World → Type 0) (work : World → ℕ) : Type 0 where
    pub fit : (w : World) → I w → 0 < r.nreqs w → AllFit env cloexec does [] (r.steps w) w
    pub keeps :
        (w w' : World)
        → I w
        → 0 < r.nreqs w
        → perform env cloexec (r.steps w) w ≡ some w'
        → I w' × (work w' < work w)
    pub flies : (w : World) → I w → r.nreqs w ≡ 0 → (k : ℕ) → data_in (w.store.reqs k) ≡ none

  -- The end of the loop.
  abbrev pub Done : Held → Ret × World → Type 0
  Done u (ret, w) =
      (ret ≡ true_value)
      × ((k : ℕ) → data_in (w.store.reqs k) ≡ none)
      × (u' : Held) × does u u'
      × ((i : ℕ) → w.php.objs i ≡ u'.objs i)
      × ((k : ℕ) → w.php.blocks k ≡ u'.blocks k)
