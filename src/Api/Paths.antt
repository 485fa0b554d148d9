-- ===== src/Api/Paths.antt =====
-- The functions that take paths. `start` is the macro `PHP_EIO_INIT`.
use pecl_eio.Base.{ℕ, ◌+◌, ◌/◌, ◌%◌, ◌&&◌, Option, ◌==◌, if◌then◌else◌}
use pecl_eio.Base.Int.{ℤ, pos, is_neg, to_int32, to_uint}
use pecl_eio.Zend.{Bytes, Zval, Warning, invalid_ids, warn}
use pecl_eio.World.{
  open_file, truncate, chown, chmod, mkdir, rmdir, unlink, readlink, realpath, stat, lstat, statvfs,
  utime, mknod, link, symlink, rename, readdir, Env, Function, false_value, true_value, give,
  initialized, bails, bailout, request, check_path, parse_path, with_php,
}

-- `S_IRUSR | S_IWUSR | S_IRGRP | S_IROTH`
abbrev pub default_mode : ℕ
default_mode = 0o644

-- `if (!mode)`
unfoldable pub open_mode : ℤ → ℕ
open_mode (pos n) = if n == 0 then default_mode else to_uint 32 (pos n)
open_mode z = to_uint 32 z

-- `php_error_docref(…); RETURN_FALSE;`
abbrev pub refuse : Warning → Function
refuse m w = give false_value (with_php w (warn m w.php))

-- `if (offset < 0) { offset = 0; }`
unfoldable pub clamp_offset : ℤ → ℤ
clamp_offset z = if is_neg z then pos 0 else z

-- `flags & (EIO_READDIR_DIRS_FIRST | EIO_READDIR_STAT_ORDER)`, the bits 2 and 4, asks for
-- `EIO_READDIR_DENTS`, the bit 1.
unfoldable pub readdir_flags : ℕ → ℕ
readdir_flags n = if n / 2 % 4 == 0 then n else if n % 2 == 0 then n + 1 else n

module _ (env : Env) where
  abbrev pub start : Function → Function
  start f w = if bails env w then give bailout (initialized env w) else f (initialized env w)

  unfoldable pub eio_open : Bytes → ℤ → ℤ → ℤ → Option Zval → Option Zval → Function
  unfolding open_mode
  eio_open path flags mode pri zcb arg =
      start (
        check_path path
          (request env (open_file path (to_int32 flags) (open_mode mode)) pri zcb arg))

  unfoldable pub eio_truncate : Bytes → ℤ → ℤ → Option Zval → Option Zval → Function
  unfolding clamp_offset
  eio_truncate path offset pri zcb arg =
      start (request env (truncate path (clamp_offset offset)) pri zcb arg)

  unfoldable pub eio_chown : Bytes → ℤ → ℤ → ℤ → Option Zval → Option Zval → Function
  eio_chown path uid gid pri zcb arg = start (
      check_path path (
        if is_neg uid && is_neg gid
        then refuse invalid_ids
        else request env (chown path (to_uint 32 uid) (to_uint 32 gid)) pri zcb arg))

  unfoldable pub eio_chmod : Bytes → ℤ → ℤ → Option Zval → Option Zval → Function
  eio_chmod path mode pri zcb arg =
      start (parse_path path (request env (chmod path (to_uint 32 mode)) pri zcb arg))

  unfoldable pub eio_mkdir : Bytes → ℤ → ℤ → Option Zval → Option Zval → Function
  eio_mkdir path mode pri zcb arg =
      start (parse_path path (request env (mkdir path (to_uint 32 mode)) pri zcb arg))

  unfoldable pub eio_rmdir : Bytes → ℤ → Option Zval → Option Zval → Function
  eio_rmdir path pri zcb arg =
      start (parse_path path (check_path path (request env (rmdir path) pri zcb arg)))

  -- `access(path, F_OK) != 0`: there is nothing to unlink.
  unfoldable pub eio_unlink : Bytes → ℤ → Option Zval → Option Zval → Function
  eio_unlink path pri zcb arg = start (
      parse_path path
        (if env.exists_file path then request env (unlink path) pri zcb arg else give true_value))

  unfoldable pub eio_utime : Bytes → ℕ → ℕ → ℤ → Option Zval → Option Zval → Function
  eio_utime path atime mtime pri zcb arg =
      start (parse_path path (check_path path (request env (utime path atime mtime) pri zcb arg)))

  unfoldable pub eio_mknod : Bytes → ℤ → ℤ → ℤ → Option Zval → Option Zval → Function
  eio_mknod path mode dev pri zcb arg = start (
      parse_path path
        (check_path path (request env (mknod path (to_uint 32 mode) (to_uint 64 dev)) pri zcb arg)))

  unfoldable pub eio_link : Bytes → Bytes → ℤ → Option Zval → Option Zval → Function
  eio_link path new_path pri zcb arg = start (
      parse_path path (
        parse_path new_path
          (check_path path (check_path new_path (request env (link path new_path) pri zcb arg)))))

  unfoldable pub eio_symlink : Bytes → Bytes → ℤ → Option Zval → Option Zval → Function
  eio_symlink path new_path pri zcb arg = start (
      parse_path path (
        parse_path new_path (
          check_path path (check_path new_path (request env (symlink path new_path) pri zcb arg)))))

  unfoldable pub eio_rename : Bytes → Bytes → ℤ → Option Zval → Option Zval → Function
  eio_rename path new_path pri zcb arg = start (
      parse_path path (
        parse_path new_path
          (check_path path (check_path new_path (request env (rename path new_path) pri zcb arg)))))

  unfoldable pub eio_readlink : Bytes → ℤ → Option Zval → Option Zval → Function
  eio_readlink path pri zcb arg = start (check_path path (request env (readlink path) pri zcb arg))

  unfoldable pub eio_realpath : Bytes → ℤ → Option Zval → Option Zval → Function
  eio_realpath path pri zcb arg = start (check_path path (request env (realpath path) pri zcb arg))

  unfoldable pub eio_stat : Bytes → ℤ → Option Zval → Option Zval → Function
  eio_stat path pri zcb arg = start (check_path path (request env (stat path) pri zcb arg))

  unfoldable pub eio_lstat : Bytes → ℤ → Option Zval → Option Zval → Function
  eio_lstat path pri zcb arg = start (check_path path (request env (lstat path) pri zcb arg))

  unfoldable pub eio_statvfs : Bytes → ℤ → Option Zval → Option Zval → Function
  eio_statvfs path pri zcb arg = start (check_path path (request env (statvfs path) pri zcb arg))

  unfoldable pub eio_readdir : Bytes → ℤ → ℤ → Option Zval → Option Zval → Function
  unfolding readdir_flags
  eio_readdir path flags pri zcb arg =
      start
        (request env (readdir path (to_int32 (pos (readdir_flags (to_uint 64 flags))))) pri zcb arg)
