-- ===== src/Request.antt =====
-- The parts of libeio's `eio_req` (libeio/eio.h) that php8/php_eio.c reads and writes.
use pecl_eio.Base.{ℕ, ◌≡◌, refl, Bool, true, false, Option, ◌==◌, if◌then◌else◌}
use pecl_eio.Base.Int.{ℤ}

-- The request types that the extension submits (`EIO_CUSTOM` and so on).
pub data ReqType : Type 0 where
  custom close dup2 seek read write readahead sendfile fstat fstatvfs ftruncate futime : ReqType
  fchmod fchown sync fsync fdatasync syncfs sync_file_range fallocate group nop busy : ReqType
  realpath readdir open_file stat lstat statvfs truncate utime chmod chown unlink : ReqType
  rmdir mkdir rename mknod link symlink readlink : ReqType

-- The requests whose memory is that of every function but `eio_custom` and `eio_write`.
abbrev pub is_plain : ReqType → Bool
is_plain ReqType.custom = false
is_plain ReqType.write = false
is_plain _ = true

-- What the pointer `req->destroy` holds: NULL, the extension's hook, or a function of libeio.
pub data Destroy : Type 0 where
  null : Destroy
  hook : Destroy
  libeio : ℕ → Destroy

abbrev pub is_hook : Destroy → Bool
is_hook null = false
is_hook hook = true
is_hook (libeio f) = false

-- `cb_data` is `req->data` and `buf` is `req->ptr2`, pointers that may be NULL. `int1` holds the
-- flags of `eio_readdir`.
pub record EioReq : Type 0 where
  pub type : ReqType
  pub result : ℤ
  pub size : ℕ
  pub int1 : ℕ
  pub errorno : ℕ
  pub cancelled : Bool
  pub cb_data : Option ℕ
  pub buf : Option ℕ
  pub destroy : Destroy

-- The memory of the requests, by address. `none` is an address with no request: it was never
-- allocated, or libeio freed it.
abbrev pub Reqs : Type 0
Reqs = ℕ → Option EioReq

abbrev pub is_null : Destroy → Bool
is_null null = true
is_null hook = false
is_null (libeio f) = false

-- What a request is of, and the callback object that it carries.
abbrev pub content : Option EioReq → Option (ReqType × Option ℕ)
content Option.none = Option.none
content (Option.some q) = Option.some (q.type, q.cb_data)

abbrev pub buf_in : Option EioReq → Option ℕ
buf_in Option.none = Option.none
buf_in (Option.some q) = q.buf

-- A request with the content of a live one is alive.
pub is_live :
    (o : Option EioReq) (q : EioReq)
    → content o ≡ content (Option.some q)
    → (p : EioReq) × (o ≡ Option.some p)
is_live Option.none q e = cc
is_live (Option.some p) q e = (p, refl)

abbrev pub hooked_in : Option EioReq → Bool
hooked_in Option.none = false
hooked_in (Option.some q) = is_hook q.destroy

abbrev pub null_in : Option EioReq → Bool
null_in Option.none = false
null_in (Option.some q) = is_null q.destroy

-- A destroy function `f` of libeio, called on the request `r`: its effect on the memory.
pub record Libeio : Type 0 where
  pub destroy : (f r : ℕ) → Reqs → Reqs

-- What the extension relies on: the request is freed, and no other is touched.
pub record Frees (lib : Libeio) : Type 0 where
  pub frees :
      (f r : ℕ) (m : Reqs) (q : ℕ)
      → Libeio.destroy lib f r m q ≡ (if r == q then Option.none else m q)
