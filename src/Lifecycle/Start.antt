-- ===== src/Lifecycle/Start.antt =====
-- What the start of the module establishes.
use pecl_eio.Base.{ℕ, List, some, if◌then◌else◌, ◌≡◌, refl, false, none, arith}
use pecl_eio.Base.Returns.{Returns}
use pecl_eio.Handles.{Store}
use pecl_eio.Handles.Steps.{start, start-IsSafe}
use pecl_eio.World.{World, Env, IsEnv}
use pecl_eio.World.Submission.{IsReady, StoreReady, AnyOutcome}
use pecl_eio.Api.Running.{Api, run}
use pecl_eio.Api.Safety.{run-Safe}
use pecl_eio.Lifecycle.{minit, open_table, Module, startup}
use pecl_eio.Lifecycle.Constants.{
  Constant, Headers, constant, is_defined, macro_value, constant_lem,
}
use pecl_eio.Lifecycle.Types.{ListType, Numbers, Registered, register_types-Registered}

-- The static variables before the start: the table is closed, and libeio has no request.
abbrev pub loaded : Store
loaded = record (start (λ _. none)) { ready = false }

started-StoreReady : (env : Env) → StoreReady env (open_table loaded)
started-StoreReady env = record {
  inv = (start-IsSafe (λ _. none) (λ r. refl) (λ r. refl)).inv;
  few = omega arith;
  ready = refl;
  fresh = refl;
}

minit-IsReady : (env : Env) (w : World) → w.store ≡ loaded → IsReady env (minit env w)
unfolding minit
minit-IsReady env w e = rw e (started-StoreReady env)

-- Where the static variables are as they are loaded, and libeio has no request: after the start of
-- the module, whatever the initialization reports, the extension is ready, and with allocators that
-- return unused memory each of the forty functions that make requests (all but `eio_write`) returns
-- without a fault, whatever its parameters; it makes one request with a resource for it, or none.
pub minit-run :
    (env : Env)
    → IsEnv env
    → (w : World) → w.store ≡ loaded
    → IsReady env (minit env w)
      × ((api : Api) → Returns (AnyOutcome (minit env w)) (run env api (minit env w)))
minit-run env is w e =
    let ready = minit-IsReady env w e in (ready, λ api. run-Safe env is api (minit env w) ready)

-- What the start of the module has to set up.
pub record Started (env : Env) (h : Headers) (ts : List ListType) (m : Module) : Type 0 where
  pub ready : IsReady env m.world
  pub types : Registered ts m.types
  pub constants :
      (c : Constant)
      → constant c m.constants ≡ (if is_defined h c then some (macro_value h c) else none)

-- Where the static variables are as they are loaded, libeio has no request, and the engine gives a
-- new type of resources a number that no type has: after the start of the module, whatever the
-- initialization reports, the extension is ready. The two types of resources are different, each is
-- known under its name with `php_eio_handle_dtor` as its destructor, and the types from before are
-- as they were. Each of the constants is found with the value of the macro of its name, for the
-- flags of `open` and the modes of the macro of the system, and EIO_DEBUG and EIO_O_FSYNC exactly
-- where the headers have them.
pub startup-Started :
    (env : Env) (h : Headers) (new_type : List ListType → ℕ)
    → Numbers new_type
    → (ts : List ListType) (w : World) → w.store ≡ loaded
    → Started env h ts (startup env h new_type ts w)
unfolding startup
startup-Started env h new_type numbers ts w e = record {
  ready = minit-IsReady env w e;
  types = register_types-Registered new_type numbers ts;
  constants = constant_lem h;
}
