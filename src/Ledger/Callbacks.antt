-- ===== src/Ledger/Callbacks.antt =====
-- PHP code in a callback that goes on to use the extension: it makes requests, cancels others, lets
-- go of resources, and makes libeio finish other requests, in whose callbacks it does the same.
use pecl_eio.Base.{◌≡◌, Bool, Option, some, List, [], ◌∷◌, ◌>>=◌}
use pecl_eio.Base.Int.{ℤ}
use pecl_eio.Base.Returns
use pecl_eio.Base.Returns.{Returns, returns}
use pecl_eio.Request.{Frees}
use pecl_eio.World.{World, Env, IsEnv}
use pecl_eio.Results.{Args, User}
use pecl_eio.Results.Cancelled.{CancelRuns}
use pecl_eio.Ledger.{Held, Entry, Owned}
use pecl_eio.Ledger.Groups.{GroupRuns}
use pecl_eio.Ledger.Steps.{Op, exec, Fits, Keeping, Habit, exec-Keeping}

abbrev pub perform : Env → (ℤ → Bool) → List Op → World → Option World
perform env cloexec [] w = some w
perform env cloexec (op ∷ ops) w = exec env cloexec op w >>= perform env cloexec ops

-- A callback that takes the steps that it chooses by its parameters.
abbrev pub script : Env → (ℤ → Bool) → (Args → Bool × List Op) → User
script env cloexec plan x w = perform env cloexec (plan x).1 w >>= λ w'. some ((plan x).0, w')

module _ (env : Env) (cloexec : ℤ → Bool) (does : Held → Held → Type 0) where
  -- Each step may be taken where it is taken.
  abbrev pub AllFit : List Entry → List Op → World → Type 0
  AllFit g [] w = Unit
  AllFit g (op ∷ ops) w =
      Fits env cloexec does g op w
      × ((w' : World) → exec env cloexec op w ≡ some w' → AllFit g ops w')

  module _ (is : IsEnv env) (f : Frees env.lib) (cancels : CancelRuns env) (runs : GroupRuns env)
      (habit : Habit does) where
    pub perform-Keeping :
        (g : List Entry) (ops : List Op) (u : Held) (w : World)
        → AllFit g ops w
        → Owned g u w
        → Returns (Keeping g does u) (perform env cloexec ops w)
    perform-Keeping g [] u w fit own = returns (u, habit.nothing u, own)
    perform-Keeping g (op ∷ ops) u w (fits, rest) own =
        let (w1, e, (v, did, own1)) =
          Returns.taken (exec-Keeping env cloexec does is f cancels runs habit g op u w fits own) in
        rw e (
          Returns.mono (perform-Keeping g ops v w1 (rest w1 e) own1)
            λ w' (v', did', own'). (v', habit.both u v v' did did', own'))
