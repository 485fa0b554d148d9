-- ===== src/Ledger/RefusedTests.antt =====
-- A call of `eio_nop` for which libeio has no memory.
use pecl_eio.Base.{◌≡◌, none, some, arith}
use pecl_eio.Base.Int.{pos}
use pecl_eio.Zend.{object}
use pecl_eio.World.{Env, IsEnv, Call, false_value, request, with_php}
use pecl_eio.Results.LifeTests.{made_php, made_lem}
use pecl_eio.Examples.{env, world, empty}
use pecl_eio.Ledger.{memory}
use pecl_eio.Ledger.Leaks.{start-Owned}
use pecl_eio.Ledger.Refused.{Orphan, request-Orphan}
use mathlib.Core.Path.{refl}

abbrev full : Env
full = record env { new_request = λ c s. none }

full-IsEnv : IsEnv full
full-IsEnv = record { fresh_cb = λ p a e. ground arith; fresh_request = λ c s r e. cc }

request-Orphan_example :
    (request full Call.nop (pos 0) (some (object 3)) (some (object 4)) world
      ≡ some (false_value, with_php world made_php))
    × Orphan world 100 made_php
request-Orphan_example =
    request-Orphan full full-IsEnv Call.nop (pos 0) (some (object 3)) (some (object 4))
      (memory empty) world 100 made_php (start-Owned world refl) refl made_lem
