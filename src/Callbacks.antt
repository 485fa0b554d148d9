-- ===== src/Callbacks.antt =====
-- The callback objects of php8/php_eio.c: `php_eio_import_func_info` to
-- `php_eio_new_eio_cb_custom`. `is_callable` is `zend_is_callable_ex`; a block is allocated at the
-- address that `ecalloc` returns (`none` is NULL).
pub mod Balance
pub mod Lifetime
pub mod Storing
mod Tests
use pecl_eio.Base.{
  ℕ, ◌+◌, Bool, true, false, not, ◌&&◌, Option, none, some, ◌>>=◌, write, if◌then◌else◌,
}
use pecl_eio.Zend.{
  Zval, undef, object, Callable, FuncInfo, EioCb, EioCbCustom, Block, cb, cb_custom, Php, Exception,
  invalid_callback, invalid_exec_callback, add_ref, ptr_dtor, efree, throw,
}

abbrev pub is_undef : Zval → Bool
is_undef undef = true
is_undef _ = false

abbrev pub no_func : FuncInfo
no_func = record { func_ptr = none; ce = none; obj = undef; closure = undef }

-- `if (Z_TYPE_P(zcb) == IS_OBJECT) ZVAL_COPY(&pf->closure, zcb)`
unfoldable pub import_closure : Zval → Php → Zval × Php
import_closure (object i) p = (object i, add_ref (object i) p)
import_closure z p = (undef, p)

-- `if (obj_ptr && !(... & ZEND_ACC_STATIC))`
unfoldable pub import_object : Callable → Php → Zval × Php
import_object fcc p = elim fcc.object [
  | none ↦ (undef, p)
  | some i ↦ if fcc.is_static then (undef, p) else (object i, add_ref (object i) p)
]

-- `php_eio_import_func_info`. `none` is FAILURE: the engine has allocated an error text then, and the
-- pointer to it is in a parameter of this function, so nobody frees the text.
unfoldable pub import_func_info :
    (Zval → Option Callable) → Option Zval → Php → Option FuncInfo × Php
import_func_info is_callable none p = (some no_func, p)
import_func_info is_callable (some zcb) p = elim (is_callable zcb) [
  | none ↦ (none, record p { errors = p.errors + 1 })
  | some fcc ↦
      let (closure, p) = import_closure zcb p in
      let (obj, p) = import_object fcc p in
      let info : FuncInfo = record {
        func_ptr = some fcc.function_handler;
        ce = fcc.calling_scope;
        obj = obj;
        closure = closure;
      } in
      (some info, p)
]

-- `if (! Z_ISUNDEF(z)) zval_ptr_dtor(&z)`
unfoldable pub release_zval : Zval → Php → Option Php
release_zval z p = if is_undef z then some p else ptr_dtor z p

-- `php_eio_func_info_free`; every call passes FALSE for `self`.
unfoldable pub func_info_free : FuncInfo → Php → Option Php
func_info_free pf p = do p ← release_zval pf.obj p; release_zval pf.closure p

-- The block at `a`, where it is a callback object.
abbrev pub as_cb : Option Block → Option EioCb
as_cb (some (cb c)) = some c
as_cb _ = none

abbrev pub as_cb_custom : Option Block → Option EioCbCustom
as_cb_custom (some (cb_custom c)) = some c
as_cb_custom _ = none

-- `php_eio_free_eio_cb`
unfoldable pub free_eio_cb : Option ℕ → Php → Option Php
free_eio_cb none p = some p
free_eio_cb (some a) p = do
  c ← as_cb (p.blocks a)
  p ← release_zval c.arg p
  p ← func_info_free c.func p
  efree a p

-- `php_eio_free_eio_cb_custom`
unfoldable pub free_eio_cb_custom : Option ℕ → Php → Option Php
free_eio_cb_custom none p = some p
free_eio_cb_custom (some a) p = do
  c ← as_cb_custom (p.blocks a)
  p ← release_zval c.arg p
  p ← func_info_free c.func p
  p ← func_info_free c.func_exec p
  efree a p

-- `if (data) ZVAL_COPY(&eio_cb->arg, data)`
unfoldable pub copy_arg : Option Zval → Php → Zval × Php
copy_arg none p = (undef, p)
copy_arg (some z) p = (z, add_ref z p)

-- The rest of `php_eio_new_eio_cb`, from the result of the import on.
unfoldable pub store_cb : ℕ → Option Zval → Option FuncInfo × Php → Option ℕ × Php
store_cb a arg (none, p) = (none, throw invalid_callback p)
store_cb a arg (some info, p) =
    let (arg, p) = copy_arg arg p in
    let c : EioCb = record { func = info; arg = arg } in
    (some a, record p { blocks = write p.blocks a (some (cb c)) })

-- `php_eio_new_eio_cb`: the address of the object, or NULL.
unfoldable pub new_eio_cb :
    (Zval → Option Callable) → Option ℕ → Option Zval → Option Zval → Php → Option ℕ × Php
unfolding store_cb
new_eio_cb is_callable none zcb arg p = (none, p)
new_eio_cb is_callable (some a) zcb arg p = store_cb a arg (import_func_info is_callable zcb p)

-- The rest of `php_eio_new_eio_cb_custom`, from the second import on.
unfoldable pub store_cb_custom :
    ℕ → FuncInfo → Option Zval → Option FuncInfo × Php → Option (Option ℕ × Php)
store_cb_custom a func_exec arg (none, p) =
    func_info_free func_exec (throw invalid_callback p) >>= λ p. some (none, p)
store_cb_custom a func_exec arg (some info, p) =
    let (arg, p) = copy_arg arg p in
    let c : EioCbCustom = record {
      arg = arg;
      locked = false;
      func_exec = func_exec;
      func = info;
    } in
    some (some a, record p { blocks = write p.blocks a (some (cb_custom c)) })

-- The same from the first import on.
unfoldable pub import_second :
    (Zval → Option Callable)
    → ℕ
    → Option Zval
    → Option Zval
    → Option FuncInfo × Php
    → Option (Option ℕ × Php)
unfolding store_cb_custom
import_second is_callable a zcb arg (none, p) = some (none, throw invalid_exec_callback p)
import_second is_callable a zcb arg (some func_exec, p) =
    store_cb_custom a func_exec arg (import_func_info is_callable zcb p)

-- `php_eio_new_eio_cb_custom`
unfoldable pub new_eio_cb_custom :
    (Zval → Option Callable)
    → Option ℕ
    → Option Zval
    → Option Zval
    → Option Zval
    → Php
    → Option (Option ℕ × Php)
unfolding import_second
new_eio_cb_custom is_callable none zcb zcb_exec arg p = some (none, p)
new_eio_cb_custom is_callable (some a) zcb zcb_exec arg p =
    import_second is_callable a zcb arg (import_func_info is_callable zcb_exec p)
