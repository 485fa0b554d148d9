-- ===== src/World.antt =====
-- The state that a call of the extension works on, what it takes from its surroundings, and the
-- requests that it makes of libeio.
pub mod Submission
pub mod Running
use pecl_eio.Base.{
  ℕ, ◌≡◌, Bool, true, false, Option, none, some, List, [], ◌∷◌, ◌==◌, ltb, length, if◌then◌else◌,
  ◌>>=◌, write as write_at,
}
use pecl_eio.Base.Int.{ℤ, pos, is_neg, to_int32}
use pecl_eio.Request.{Destroy, libeio, EioReq, ReqType, Reqs, Libeio, Frees}
use pecl_eio.Request
use pecl_eio.Handles.{Store, Handle, register_resource}
use pecl_eio.Handles.Resources.{Kind}
use pecl_eio.Handles.Resources
use pecl_eio.Zend.{Bytes, Zval, Callable, Php, Exception, Warning, throw, path_with_nul}
use pecl_eio.Callbacks.{new_eio_cb}
use pecl_eio.Process.{Os, Process, is_init}
use pecl_eio.Fd.{FdEnv, zval_to_fd}

-- The calls of libeio that make a request (libeio/eio.h), with the arguments that the extension
-- passes after the conversions of C. A time is a `double`, given by its bits.
pub data Call : Type 0 where
  open_file : Bytes → (flags : ℤ) → (mode : ℕ) → Call
  truncate : Bytes → (offset : ℤ) → Call
  chown : Bytes → (uid gid : ℕ) → Call
  chmod mkdir : Bytes → (mode : ℕ) → Call
  rmdir unlink readlink realpath stat lstat statvfs : Bytes → Call
  utime : Bytes → (atime mtime : ℕ) → Call
  mknod : Bytes → (mode dev : ℕ) → Call
  link symlink rename : Bytes → Bytes → Call
  readdir : Bytes → (flags : ℤ) → Call
  close fsync fdatasync syncfs fstat fstatvfs : (fd : ℤ) → Call
  sync nop : Call
  futime : (fd : ℤ) → (atime mtime : ℕ) → Call
  ftruncate : (fd offset : ℤ) → Call
  fchmod : (fd : ℤ) → (mode : ℕ) → Call
  fchown : (fd : ℤ) → (uid gid : ℕ) → Call
  dup2 : (fd fd2 : ℤ) → Call
  read : (fd : ℤ) → (length : ℕ) → (offset : ℤ) → Call
  write : (fd : ℤ) → Bytes → (length : ℕ) → (offset : ℤ) → Call
  sendfile : (out_fd in_fd offset : ℤ) → (length : ℕ) → Call
  readahead : (fd offset : ℤ) → (length : ℕ) → Call
  seek : (fd offset whence : ℤ) → Call
  sync_file_range : (fd offset : ℤ) → (nbytes flags : ℕ) → Call
  fallocate : (fd mode offset : ℤ) → (length : ℕ) → Call
  custom group : Call
  busy : (delay : ℤ) → Call

-- The type that libeio gives the request.
unfoldable pub type_of : Call → ReqType
type_of (open_file p f m) = Request.ReqType.open_file
type_of (truncate p o) = Request.ReqType.truncate
type_of (chown p u g) = Request.ReqType.chown
type_of (chmod p m) = Request.ReqType.chmod
type_of (mkdir p m) = Request.ReqType.mkdir
type_of (rmdir p) = Request.ReqType.rmdir
type_of (unlink p) = Request.ReqType.unlink
type_of (readlink p) = Request.ReqType.readlink
type_of (realpath p) = Request.ReqType.realpath
type_of (stat p) = Request.ReqType.stat
type_of (lstat p) = Request.ReqType.lstat
type_of (statvfs p) = Request.ReqType.statvfs
type_of (utime p a m) = Request.ReqType.utime
type_of (mknod p m d) = Request.ReqType.mknod
type_of (link p q) = Request.ReqType.link
type_of (symlink p q) = Request.ReqType.symlink
type_of (rename p q) = Request.ReqType.rename
type_of (readdir p f) = Request.ReqType.readdir
type_of (close d) = Request.ReqType.close
type_of (fsync d) = Request.ReqType.fsync
type_of (fdatasync d) = Request.ReqType.fdatasync
type_of (syncfs d) = Request.ReqType.syncfs
type_of (fstat d) = Request.ReqType.fstat
type_of (fstatvfs d) = Request.ReqType.fstatvfs
type_of sync = Request.ReqType.sync
type_of nop = Request.ReqType.nop
type_of (futime d a m) = Request.ReqType.futime
type_of (ftruncate d o) = Request.ReqType.ftruncate
type_of (fchmod d m) = Request.ReqType.fchmod
type_of (fchown d u g) = Request.ReqType.fchown
type_of (dup2 d e) = Request.ReqType.dup2
type_of (read d n o) = Request.ReqType.read
type_of (write d s n o) = Request.ReqType.write
type_of (sendfile o i f n) = Request.ReqType.sendfile
type_of (readahead d o n) = Request.ReqType.readahead
type_of (seek d o w) = Request.ReqType.seek
type_of (sync_file_range d o n f) = Request.ReqType.sync_file_range
type_of (fallocate d m o n) = Request.ReqType.fallocate
type_of custom = Request.ReqType.custom
type_of group = Request.ReqType.group
type_of (busy d) = Request.ReqType.busy

pub record Submitted : Type 0 where
  pub at : ℕ
  pub call : Call
  pub pri : ℤ

-- `submitted` is what libeio was asked to do, newest first.
pub record World : Type 0 where
  pub store : Store
  pub php : Php
  pub process : Process
  pub submitted : List Submitted

-- The surroundings: PHP's engine, the allocators, the operating system and libeio. `new_request` is
-- the address of the request that libeio makes, or NULL, `request_args` the `size` and `int1` that
-- it sets, `eio_api_destroy` its destroy function.
-- `cancel`, `grp_cancel`, `grp_add` and `grp_limit` are the functions of libeio on live requests.
pub record Env : Type 0 where
  pub is_callable : Zval → Option Callable
  pub cb_address : Php → Option ℕ
  pub buf_address : Php → ℕ
  pub handle_address : (ℕ → Option Handle) → ℕ
  pub new_request : Call → Store → Option ℕ
  pub request_args : Call → ℕ × ℕ
  pub eio_api_destroy : ℕ
  pub lib : Libeio
  pub cancel : ℕ → Reqs → Reqs
  pub grp_cancel : ℕ → Reqs → Reqs
  pub grp_add : ℕ → ℕ → Reqs → Reqs
  pub grp_limit : ℕ → ℤ → Reqs → Reqs
  pub strerror : ℕ → Bytes
  pub to_string : Zval → Bytes
  pub exists_file : Bytes → Bool
  pub os : Os
  pub fds : FdEnv

-- The callback objects and the requests that are allocated are not in use.
pub record IsEnv (env : Env) : Type 0 where
  pub fresh_cb : (p : Php) (a : ℕ) → Env.cb_address env p ≡ some a → p.blocks a ≡ none
  pub fresh_request :
      (c : Call) (s : Store) (r : ℕ) → Env.new_request env c s ≡ some r → s.reqs r ≡ none

-- What a function of the extension returns to PHP. A fatal error does not return: `bailout`.
pub data Ret : Type 0 where
  false_value true_value null_value bailout : Ret
  resource_id : ℕ → Ret
  text : Bytes → Ret

-- A function of the extension, its parameters parsed; `none` is a fault.
abbrev pub Function : Type 0
Function = World → Option (Ret × World)

abbrev pub give : Ret → Function
give ret w = some (ret, w)

abbrev pub with_store : World → Store → World
with_store w s = record w { store = s }

abbrev pub with_php : World → Php → World
with_php w p = record w { php = p }

module _ (env : Env) where
  -- The macro `PHP_EIO_INIT`
  abbrev pub initialized : World → World
  initialized w = record w { process = is_init env.os w.process }

  -- It reports a fatal error.
  unfoldable pub bails : World → Bool
  bails w = ltb (length w.process.fatal) (length (is_init env.os w.process).fatal)

  -- A call of libeio that makes a request: what its macros REQ and SEND fill in.
  unfoldable pub send : Call → ℤ → Option ℕ → Option ℕ → World → Option ℕ × World
  send call pri cb buf w = elim (env.new_request call w.store) [
    | none ↦ (none, w)
    | some r ↦
        let q : EioReq = record {
          type = type_of call;
          result = pos 0;
          size = (env.request_args call).0;
          int1 = (env.request_args call).1;
          errorno = 0;
          cancelled = false;
          cb_data = cb;
          buf = buf;
          destroy = libeio env.eio_api_destroy;
        } in
        let s = w.store in
        let entry : Submitted = record { at = r; call = call; pri = to_int32 pri } in
        (
          some r,
          record w {
            store = record s { reqs = write_at s.reqs r (some q) };
            submitted = entry ∷ w.submitted;
          },
        )
  ]

  -- `PHP_EIO_RET_IF_FAILED` and `php_eio_register_resource`
  unfoldable pub ret_resource : Kind → Option ℕ × World → Option (Ret × World)
  ret_resource kind (none, w) = give false_value w
  ret_resource kind (some r, w) = do
    (id, s) ← register_resource r kind (env.handle_address w.store.handles) w.store
    give (resource_id id) (with_store w s)

  -- The end that most functions share: a callback object, the call of libeio, and
  -- `PHP_EIO_RET_REQ_RESOURCE`.
  unfoldable pub request : Call → ℤ → Option Zval → Option Zval → Function
  unfolding send ret_resource
  request call pri zcb arg w =
      let (c, p) = new_eio_cb env.is_callable (env.cb_address w.php) zcb arg w.php in
      ret_resource Resources.Kind.req (send call pri c none (with_php w p))

  -- The exception of `php_eio_zval_to_fd`, if it throws one.
  abbrev pub throwing : Option Exception → World → World
  throwing none w = w
  throwing (some e) w = with_php w (throw e w.php)

  -- `if (fd < 0) { RETURN_FALSE; }`
  unfoldable pub use_fd : (ℤ → Function) → ℤ × Option Exception → Function
  use_fd k (fd, e) w = if is_neg fd then give false_value (throwing e w) else k fd (throwing e w)

  -- `fd = php_eio_zval_to_fd(zfd); if (fd < 0) { RETURN_FALSE; }`
  unfoldable pub with_fd : Zval → (ℤ → Function) → Function
  with_fd zfd k w = use_fd k (zval_to_fd env.fds zfd) w

abbrev pub has_nul : Bytes → Bool
has_nul [] = false
has_nul (c ∷ cs) = if c == 0 then true else has_nul cs

-- The parameter type `p` of `zend_parse_parameters`: a path with a NUL byte throws a ValueError, and
-- the function returns without a value.
unfoldable pub parse_path : Bytes → Function → Function
parse_path path k w =
    if has_nul path then give null_value (with_php w (throw path_with_nul w.php)) else k w

-- `EIO_CHECK_PATH_LEN`: the length by `strlen` differs exactly where a byte is NUL.
unfoldable pub check_path : Bytes → Function → Function
check_path path k w = if has_nul path then give false_value w else k w
