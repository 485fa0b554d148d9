-- ===== src/Results.antt =====
-- The completion of requests: php8/php_eio.c, `php_eio_res_cb`. What libeio's pointers `ptr1` and
-- `ptr2` of a request lead to, and the PHP code of the callback, are parameters.
pub mod Release
pub mod Completion
pub mod Finishing
pub mod Careful
pub mod Written
pub mod Life
pub mod Cancelled
pub mod SelfCancel
pub mod Tests
pub mod LifeTests
use pecl_eio.Base.{
  ℕ, ◌%◌, Bool, true, false, Option, none, some, List, ◌==◌, if◌then◌else◌, ◌>>=◌,
  write as write_at,
}
use pecl_eio.Base.Int.{ℤ, pos, negsuc, is_neg}
use pecl_eio.Request.{EioReq, ReqType}
use pecl_eio.Request
use pecl_eio.Zend.{Bytes, Zval, null, EioCb, Php, cloexec_failed, add_ref, ptr_dtor, efree, warn}
use pecl_eio.Callbacks.{is_undef, as_cb, free_eio_cb}
use pecl_eio.Handles.{Store, register_resource, handle_dtor}
use pecl_eio.Handles.Resources
use pecl_eio.Readdir.{Dirent, Dent, slice, set_readdir_names, set_readdir_dent_and_names}
use pecl_eio.World.{World, Env, with_php, with_store}

-- EIO_STAT_BUF(req)
pub record Stat : Type 0 where
  pub dev : ℤ
  pub ino : ℤ
  pub mode : ℤ
  pub nlink : ℤ
  pub uid : ℤ
  pub size : ℤ
  pub gid : ℤ
  pub rdev : ℤ
  pub blksize : ℤ
  pub blocks : ℤ
  pub atime : ℤ
  pub mtime : ℤ
  pub ctime : ℤ

-- EIO_STATVFS_BUF(req)
pub record Statvfs : Type 0 where
  pub bsize : ℤ
  pub frsize : ℤ
  pub blocks : ℤ
  pub bfree : ℤ
  pub bavail : ℤ
  pub files : ℤ
  pub ffree : ℤ
  pub favail : ℤ
  pub fsid : ℤ
  pub flag : ℤ
  pub namemax : ℤ

-- What the pointers of a request lead to: EIO_BUF(req), `ptr1`, and the two structs.
pub record Buffers : Type 0 where
  pub buf : Bytes
  pub ents : List Dirent
  pub stat_buf : Stat
  pub statvfs_buf : Statvfs

-- The parameter `$result`; an array has the keys of its constructor's record.
pub data Value : Type 0 where
  number : ℤ → Value
  text : Bytes → Value
  stat : Stat → Value
  statvfs : Statvfs → Value
  names : List Bytes → Value
  names_and_dents : List Bytes × List Dent → Value

abbrev pub as_nat : ℤ → ℕ
as_nat (pos n) = n
as_nat (negsuc n) = 0

-- `req->int1 & (EIO_READDIR_DENTS | EIO_READDIR_DIRS_FIRST)`, the bits 1 and 2
unfoldable pub readdir_value : EioReq → Buffers → Option Value
readdir_value q b =
    let plain = (do ns ← set_readdir_names (as_nat q.result) b.buf; some (names ns)) in
    let full = (do
      ds ← set_readdir_dent_and_names (as_nat q.result) b.ents b.buf
      some (names_and_dents ds)) in
    if q.int1 % 4 == 0 then plain else full

-- The switch on the type of the request. `none` is a read past the end of a buffer.
unfoldable pub value_of_type : ReqType → EioReq → Buffers → Option Value
unfolding readdir_value
value_of_type Request.ReqType.read q b = slice 0 q.size b.buf >>= λ s. some (text s)
value_of_type Request.ReqType.readlink q b = slice 0 (as_nat q.result) b.buf >>= λ s. some (text s)
value_of_type Request.ReqType.realpath q b = slice 0 (as_nat q.result) b.buf >>= λ s. some (text s)
value_of_type Request.ReqType.stat q b = some (stat b.stat_buf)
value_of_type Request.ReqType.lstat q b = some (stat b.stat_buf)
value_of_type Request.ReqType.fstat q b = some (stat b.stat_buf)
value_of_type Request.ReqType.statvfs q b = some (statvfs b.statvfs_buf)
value_of_type Request.ReqType.fstatvfs q b = some (statvfs b.statvfs_buf)
value_of_type Request.ReqType.readdir q b = readdir_value q b
value_of_type _ q b = some (number q.result)

unfoldable pub result_value : EioReq → Buffers → Option Value
unfolding value_of_type
result_value q b = if is_neg q.result then some (number q.result) else value_of_type q.type q b

-- `if (EIO_BUF(req)) { efree(EIO_BUF(req)); EIO_BUF(req) = NULL; }`
unfoldable pub free_written : ℕ → EioReq → World → Option World
free_written r q w = elim q.buf [
  | none ↦ some w
  | some a ↦ (do
    p ← efree a w.php
    let s = w.store
    let reqs = write_at s.reqs r (some (record q { buf = none }))
    some (with_php (with_store w (record s { reqs = reqs })) p))
]

-- What the switch does besides: `cloexec` is PHP_EIO_SETFD_CLOEXEC's `fcntl`.
unfoldable pub effects : (ℤ → Bool) → ReqType → ℕ → EioReq → World → Option World
unfolding free_written
effects cloexec Request.ReqType.open_file r q w =
    some (if cloexec q.result then w else with_php w (warn cloexec_failed w.php))
effects cloexec Request.ReqType.write r q w = free_written r q w
effects cloexec _ r q w = some w

unfoldable pub result_effects : (ℤ → Bool) → ℕ → EioReq → World → Option World
unfolding effects
result_effects cloexec r q w =
    let done = effects cloexec q.type r q w in if is_neg q.result then some w else done

-- The parameters `$data`, `$result` and `$req` of the callback `func`.
pub record Args : Type 0 where
  pub func : ℕ
  pub obj : Zval
  pub data_arg : Zval
  pub result : Value
  pub req : ℕ

-- The PHP code of a callback; it says whether it kept the resource `$req`.
abbrev pub User : Type 0
User = Args → World → Option (Bool × World)

-- `ZVAL_COPY(&params[0], &eio_cb->arg)`, or NULL
abbrev pub data_param : Zval → Zval
data_param z = if is_undef z then null else z

-- The resource `$req` goes away unless PHP code keeps it.
unfoldable pub drop_req : Bool → ℕ → Store → Option Store
drop_req kept id s = if kept then some s else handle_dtor id s

module _ (env : Env) (cloexec : ℤ → Bool) (b : Buffers) (user : User) where
  -- The end of `php_eio_res_cb`.
  unfoldable pub release_params : ℕ → Zval → ℕ → Bool × World → Option World
  unfolding drop_req
  release_params a arg id (kept, w) = do
    p ← free_eio_cb (some a) w.php >>= ptr_dtor arg
    s ← drop_req kept id w.store
    some (with_php (with_store w s) p)

  -- From the parameter `$data` on.
  unfoldable pub call_back : ℕ → EioReq → ℕ → EioCb → ℕ → World → Option World
  unfolding result_value result_effects release_params
  call_back r q a c f w = do
    let arg = data_param c.arg
    v ← result_value q b
    w ← result_effects cloexec r q (with_php w (add_ref arg w.php))
    (id, s) ← register_resource r Resources.Kind.req (env.handle_address w.store.handles) w.store
    let args : Args = record { func = f; obj = c.func.obj; data_arg = arg; result = v; req = id }
    out ← user args (with_store w s)
    release_params a arg id out

  -- `php_eio_free_eio_cb(eio_cb); return 0;`
  abbrev pub free_only : ℕ → World → Option World
  free_only a w = free_eio_cb (some a) w.php >>= λ p. some (with_php w p)

  -- `php_eio_res_cb`, on the request at `r`
  unfoldable pub res_cb : ℕ → World → Option World
  unfolding call_back
  res_cb r w = do
    q ← w.store.reqs r
    elim q.cb_data [
      | none ↦ some w
      | some a ↦
          if q.cancelled
          then free_only a w
          else (as_cb (w.php.blocks a) >>= λ c. elim c.func.func_ptr [
            | none ↦ free_only a w
            | some f ↦ call_back r q a c f w
          ])
    ]
