-- ===== src/Lifecycle.antt =====
-- The start and the end of the module, of a PHP request, and of a child process: php8/php_eio.c,
-- `PHP_MINIT_FUNCTION`, `PHP_MSHUTDOWN_FUNCTION`, `PHP_RSHUTDOWN_FUNCTION` and
-- `php_eio_atfork_child`. What the start registers is in Lifecycle/Types and
-- Lifecycle/Constants.
pub mod Constants
pub mod Types
pub mod Start
pub mod Shutdown
pub mod Leaks
mod Tests
use pecl_eio.Base.{ℕ, true, false, Option, none, some, List, [], ◌∷◌, ◌==◌, if◌then◌else◌, ◌>>=◌}
use Constants.{Constant, Headers, register_constants}
use Types.{ResourceTypes, ListType, register_types}
use pecl_eio.Base.Int.{ℤ}
use pecl_eio.Process.{init, pipe_destroy}
use pecl_eio.Handles.{Store, handle_dtor, handles_reset}
use pecl_eio.Handles.Resources.{Resource}
use pecl_eio.Config.{Config, eio_set_max_parallel}
use pecl_eio.World.{World, Env, initialized, with_store}

-- `zend_hash_init(&php_eio_handles, …); php_eio_handles_ready = 1;`
abbrev pub open_table : Store → Store
open_table s = record s { ready = true; table = [] }

-- `PHP_MINIT_FUNCTION(eio)`
unfoldable pub minit : Env → World → World
minit env w = initialized env (with_store w (open_table w.store))

-- `if (php_eio_handles_ready) { … }` of the shutdown
unfoldable pub close_handles : Store → Option Store
close_handles s =
    if s.ready
    then (do s' ← handles_reset s; some (record s' { ready = false; table = [] }))
    else some s

-- `PHP_MSHUTDOWN_FUNCTION(eio)`
unfoldable pub mshutdown : World → Option World
unfolding close_handles
mshutdown w = do
  let p = if w.process.len == 0 then w.process else pipe_destroy w.process
  s ← close_handles w.store
  some (record w { process = p; store = s })

-- `php_eio_atfork_child`
unfoldable pub atfork_child : Env → World → Option World
atfork_child env w = do
  s ← handles_reset w.store
  some (record w { store = s; process = init env.os w.process })

-- What the start of the module leaves: the world, the handler that a fork calls in the child, the
-- types of resources and the constants.
pub record Module : Type 0 where
  pub world : World
  pub on_fork : World → Option World
  pub types : ResourceTypes
  pub constants : List (Constant × ℤ)

-- `PHP_MINIT_FUNCTION(eio)`, with what it registers.
unfoldable pub startup : Env → Headers → (List ListType → ℕ) → List ListType → World → Module
startup env h new_type ts w = record {
  world = minit env w;
  on_fork = atfork_child env;
  types = register_types new_type ts;
  constants = register_constants h;
}

-- `PHP_RSHUTDOWN_FUNCTION(eio)`: what it asks of libeio; then it sleeps.
unfoldable pub rshutdown : Config → Config
rshutdown c = record c { max_parallel = 0 }

-- The end of a PHP request: the engine destroys its resources, the newest first.
unfoldable pub drop_all : List (ℕ × Resource) → Store → Option Store
drop_all [] s = some s
drop_all ((id, res) ∷ rs) s = handle_dtor id s >>= drop_all rs
