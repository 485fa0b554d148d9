-- ===== src/Api/Descriptors.antt =====
-- The functions that take descriptors: numbers, streams or sockets of PHP.
use pecl_eio.Base.{
  ℕ, Bool, true, false, ◌&&◌, ◌||◌, Option, none, some, ◌==◌, ltb, if◌then◌else◌, length, take,
  write as write_at,
}
use pecl_eio.Base.Int.{ℤ, pos, negsuc, is_neg, to_int32, to_uint}
use pecl_eio.Zend.{Bytes, Zval, bytes, Php, bad_fd, nothing_to_do}
use pecl_eio.Callbacks.{new_eio_cb}
use pecl_eio.Handles.Resources
use pecl_eio.World.{
  close, fsync, fdatasync, syncfs, fstat, fstatvfs, futime, ftruncate, fchmod, fchown, dup2, read,
  write, sendfile, readahead, seek, sync_file_range, fallocate, Env, Function, false_value, bailout,
  give, send, ret_resource, request, with_fd, with_php, throwing,
}
use pecl_eio.Fd.{zval_to_fd}
use pecl_eio.Api.Paths.{start, clamp_offset, refuse}

-- `length <= 0`
abbrev pub not_positive : ℤ → Bool
not_positive (pos n) = n == 0
not_positive (negsuc n) = true

abbrev pub is_zero : ℤ → Bool
is_zero (pos n) = n == 0
is_zero (negsuc n) = false

-- `num_bytes` of `eio_write`, for a string of `n` bytes. The comparison `Z_STRLEN_P(zbuf) < length`
-- is one of unsigned numbers. `two_args` is `ZEND_NUM_ARGS() == 2`.
unfoldable pub num_bytes : Bool → ℕ → ℤ → ℤ
num_bytes two_args n length =
    let clipped = if ltb n (to_uint 64 length) then pos n else length in
    to_int32 (if two_args || not_positive clipped then pos n else clipped)

module _ (env : Env) where
  unfoldable pub eio_close : Zval → ℤ → Option Zval → Option Zval → Function
  eio_close zfd pri zcb arg = start env (with_fd env zfd λ fd. request env (close fd) pri zcb arg)

  unfoldable pub eio_fsync : Zval → ℤ → Option Zval → Option Zval → Function
  eio_fsync zfd pri zcb arg = start env (with_fd env zfd λ fd. request env (fsync fd) pri zcb arg)

  unfoldable pub eio_fdatasync : Zval → ℤ → Option Zval → Option Zval → Function
  eio_fdatasync zfd pri zcb arg =
      start env (with_fd env zfd λ fd. request env (fdatasync fd) pri zcb arg)

  unfoldable pub eio_futime : Zval → ℕ → ℕ → ℤ → Option Zval → Option Zval → Function
  eio_futime zfd atime mtime pri zcb arg =
      start env (with_fd env zfd λ fd. request env (futime fd atime mtime) pri zcb arg)

  unfoldable pub eio_ftruncate : Zval → ℤ → ℤ → Option Zval → Option Zval → Function
  eio_ftruncate zfd offset pri zcb arg =
      start env (with_fd env zfd λ fd. request env (ftruncate fd (clamp_offset offset)) pri zcb arg)

  unfoldable pub eio_fchmod : Zval → ℤ → ℤ → Option Zval → Option Zval → Function
  eio_fchmod zfd mode pri zcb arg =
      start env (with_fd env zfd λ fd. request env (fchmod fd (to_uint 32 mode)) pri zcb arg)

  unfoldable pub eio_fchown : Zval → ℤ → ℤ → ℤ → Option Zval → Option Zval → Function
  eio_fchown zfd uid gid pri zcb arg = start env (
      if is_neg uid && is_neg gid
      then give false_value
      else with_fd env zfd
          λ fd. request env (fchown fd (to_uint 32 uid) (to_uint 32 gid)) pri zcb arg)

  -- Both descriptors are converted before either is tested.
  unfoldable pub with_fds : Zval → Zval → (ℤ → ℤ → Function) → Function
  with_fds zfd zfd2 k w =
      let (fd, e) = zval_to_fd env.fds zfd in
      let (fd2, e2) = zval_to_fd env.fds zfd2 in
      let next = if is_neg fd || is_neg fd2 then give false_value else k fd fd2 in
      next (throwing env e2 (throwing env e w))

  unfoldable pub eio_dup2 : Zval → Zval → ℤ → Option Zval → Option Zval → Function
  unfolding with_fds
  eio_dup2 zfd zfd2 pri zcb arg =
      start env (with_fds zfd zfd2 λ fd fd2. request env (dup2 fd fd2) pri zcb arg)

  unfoldable pub eio_read : Zval → ℤ → ℤ → ℤ → Option Zval → Option Zval → Function
  eio_read zfd length offset pri zcb arg =
      start env (with_fd env zfd λ fd. request env (read fd (to_uint 64 length) offset) pri zcb arg)

  -- The end of `eio_write`, for a string whose characters are at `chars`. Unless the parameter is a
  -- reference, the request gets a copy of the bytes after the call of libeio. The copy is made
  -- through the pointer that libeio returned, and a negative `num_bytes`, a `size_t` that no
  -- allocator has, is a fatal error.
  unfoldable pub write_request :
      Bool → ℕ → ℤ → Bytes → ℤ → ℤ → ℤ → Option Zval → Option Zval → Function
  write_request is_ref chars fd s n offset pri zcb arg w =
      let (c, p) = new_eio_cb env.is_callable (env.cb_address w.php) zcb arg w.php in
      let size = to_uint 64 n in
      let call = write fd s size offset in
      let sent = send env call pri c (some chars) (with_php w p) in
      if is_ref
      then ret_resource env Resources.Kind.req sent
      else elim (env.new_request call w.store) [
        | none ↦ none
        | some r ↦
            if is_neg n
            then give bailout sent.1
            else let b = env.buf_address p in
              let copy = bytes (take size s) in
              let p' : Php = record p { blocks = write_at p.blocks b (some copy) } in
              ret_resource env Resources.Kind.req (send env call pri c (some b) (with_php w p'))
      ]

  unfoldable pub eio_write :
      Bool → Bool → ℕ → Zval → Zval → ℤ → ℤ → ℤ → Option Zval → Option Zval → Function
  unfolding num_bytes write_request
  eio_write two_args is_ref chars zfd zbuf length_arg offset pri zcb arg = start env λ w.
      let (fd, e) = zval_to_fd env.fds zfd in
      let s = env.to_string zbuf in
      let n = num_bytes two_args (length s) length_arg in
      let next =
        if is_neg fd
        then refuse bad_fd
        else if is_zero n
        then refuse nothing_to_do
        else write_request is_ref chars fd s n offset pri zcb arg in
      next (throwing env e w)

  unfoldable pub eio_fstat : Zval → ℤ → Option Zval → Option Zval → Function
  eio_fstat zfd pri zcb arg = start env (with_fd env zfd λ fd. request env (fstat fd) pri zcb arg)

  unfoldable pub eio_fstatvfs : Zval → ℤ → Option Zval → Option Zval → Function
  eio_fstatvfs zfd pri zcb arg =
      start env (with_fd env zfd λ fd. request env (fstatvfs fd) pri zcb arg)

  unfoldable pub eio_sendfile : Zval → Zval → ℤ → ℤ → ℤ → Option Zval → Option Zval → Function
  unfolding with_fds
  eio_sendfile zout_fd zin_fd offset length pri zcb arg = start env (
      with_fds zout_fd zin_fd
        λ out_fd in_fd. request env (sendfile out_fd in_fd offset (to_uint 64 length)) pri zcb arg)

  unfoldable pub eio_readahead : Zval → ℤ → ℤ → ℤ → Option Zval → Option Zval → Function
  eio_readahead zfd offset length pri zcb arg =
      start env
        (with_fd env zfd λ fd. request env (readahead fd offset (to_uint 64 length)) pri zcb arg)

  unfoldable pub eio_seek : Zval → ℤ → ℤ → ℤ → Option Zval → Option Zval → Function
  eio_seek zfd offset whence pri zcb arg =
      start env (with_fd env zfd λ fd. request env (seek fd offset (to_int32 whence)) pri zcb arg)

  unfoldable pub eio_syncfs : Zval → ℤ → Option Zval → Option Zval → Function
  eio_syncfs zfd pri zcb arg = start env (with_fd env zfd λ fd. request env (syncfs fd) pri zcb arg)

  unfoldable pub eio_sync_file_range : Zval → ℤ → ℤ → ℤ → ℤ → Option Zval → Option Zval → Function
  eio_sync_file_range zfd offset nbytes flags pri zcb arg = start env (
      with_fd env zfd λ fd.
        request env (sync_file_range fd offset (to_uint 64 nbytes) (to_uint 32 flags)) pri zcb arg)

  unfoldable pub eio_fallocate : Zval → ℤ → ℤ → ℤ → ℤ → Option Zval → Option Zval → Function
  eio_fallocate zfd mode offset length pri zcb arg = start env (
      with_fd env zfd
        λ fd. request env (fallocate fd (to_int32 mode) offset (to_uint 64 length)) pri zcb arg)
