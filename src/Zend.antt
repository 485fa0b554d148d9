-- ===== src/Zend.antt =====
-- The parts of PHP's engine that php8/php_eio.c works on: values, reference counts, the request heap
-- and what a call reports. `is_callable` stands for `zend_is_callable_ex`.
use pecl_eio.Base.{
  ℕ, ◌+◌, ◌-◌, Bool, Option, none, some, List, ◌∷◌, ◌==◌, if◌then◌else◌, write, ◌>>=◌,
}
use pecl_eio.Base.Int.{ℤ}

abbrev pub Bytes : Type 0
Bytes = List ℕ

-- `undef` is the value of a `zval` that was never set. Objects, arrays, resources and strings are
-- counted at their address; an interned string has none.
pub data Zval : Type 0 where
  undef null : Zval
  long : ℤ → Zval
  string : (at : Option ℕ) → Bytes → Zval
  object array : (at : ℕ) → Zval
  resource : (at id : ℕ) → Zval

-- What `zend_is_callable_ex` finds: `fcc.calling_scope`, `fcc.function_handler` with its
-- `ZEND_ACC_STATIC` flag, and `fcc.object`.
pub record Callable : Type 0 where
  pub calling_scope : Option ℕ
  pub function_handler : ℕ
  pub is_static : Bool
  pub object : Option ℕ

-- `php_eio_func_info`
pub record FuncInfo : Type 0 where
  pub func_ptr : Option ℕ
  pub ce : Option ℕ
  pub obj : Zval
  pub closure : Zval

-- `php_eio_cb_t`
pub record EioCb : Type 0 where
  pub func : FuncInfo
  pub arg : Zval

-- `php_eio_cb_custom_t`
pub record EioCbCustom : Type 0 where
  pub arg : Zval
  pub locked : Bool
  pub func_exec : FuncInfo
  pub func : FuncInfo

-- What a block of the request heap holds.
pub data Block : Type 0 where
  cb : EioCb → Block
  cb_custom : EioCbCustom → Block
  bytes : Bytes → Block
  zval : Zval → Block

pub data Exception : Type 0 where
  invalid_callback invalid_exec_callback memory_stream stream_invalid : Exception
  not_a_stream invalid_fd path_with_nul wrong_resource : Exception

pub data Warning : Type 0 where
  invalid_ids bad_fd nothing_to_do cloexec_failed : Warning

-- `objs` counts the references to each object, array, resource and string by its address, `errors` the error texts that were allocated and not
-- freed. The newest exception and warning come first.
pub record Php : Type 0 where
  pub objs : ℕ → ℕ
  pub blocks : ℕ → Option Block
  pub errors : ℕ
  pub thrown : List Exception
  pub warnings : List Warning

-- The counts with that of the object `i` set to `n`.
abbrev pub set_count : (ℕ → ℕ) → ℕ → ℕ → ℕ → ℕ
set_count f i n j = if i == j then n else f j

-- Where a value is counted.
abbrev pub counted_at : Zval → Option ℕ
counted_at (object i) = some i
counted_at (array i) = some i
counted_at (resource i id) = some i
counted_at (string at s) = at
counted_at _ = none

abbrev pub count_up : Option ℕ → Php → Php
count_up none p = p
count_up (some i) p = record p { objs = set_count p.objs i (p.objs i + 1) }

abbrev pub count_down : Option ℕ → Php → Option Php
count_down none p = some p
count_down (some i) p =
    if p.objs i == 0 then none else some (record p { objs = set_count p.objs i (p.objs i - 1) })

-- `ZVAL_COPY` and `Z_ADDREF`
unfoldable pub add_ref : Zval → Php → Php
add_ref z p = count_up (counted_at z) p

-- `zval_ptr_dtor`; to give back a reference that is not there is a fault.
unfoldable pub ptr_dtor : Zval → Php → Option Php
ptr_dtor z p = count_down (counted_at z) p

-- `efree`
unfoldable pub efree : ℕ → Php → Option Php
efree a p = p.blocks a >>= λ _. some (record p { blocks = write p.blocks a none })

abbrev pub throw : Exception → Php → Php
throw e p = record p { thrown = e ∷ p.thrown }

abbrev pub warn : Warning → Php → Php
warn m p = record p { warnings = m ∷ p.warnings }
