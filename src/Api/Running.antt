-- ===== src/Api/Running.antt =====
-- Any of the forty functions that make requests (all but `eio_write`), as one function.
use pecl_eio.Base.{ℕ, Option}
use pecl_eio.Base.Int.{ℤ}
use pecl_eio.Zend.{Bytes, Zval}
use pecl_eio.World.{Env, Function}
use pecl_eio.Api.Paths
use pecl_eio.Api.Descriptors
use pecl_eio.Api.Special

-- A call of PHP code, with its parameters; those of `eio_write` are in its own module.
pub data Api : Type 0 where
  open_file : Bytes → ℤ → ℤ → ℤ → Option Zval → Option Zval → Api
  truncate : Bytes → ℤ → ℤ → Option Zval → Option Zval → Api
  chown : Bytes → ℤ → ℤ → ℤ → Option Zval → Option Zval → Api
  chmod : Bytes → ℤ → ℤ → Option Zval → Option Zval → Api
  mkdir : Bytes → ℤ → ℤ → Option Zval → Option Zval → Api
  rmdir : Bytes → ℤ → Option Zval → Option Zval → Api
  unlink : Bytes → ℤ → Option Zval → Option Zval → Api
  utime : Bytes → ℕ → ℕ → ℤ → Option Zval → Option Zval → Api
  mknod : Bytes → ℤ → ℤ → ℤ → Option Zval → Option Zval → Api
  link : Bytes → Bytes → ℤ → Option Zval → Option Zval → Api
  symlink : Bytes → Bytes → ℤ → Option Zval → Option Zval → Api
  rename : Bytes → Bytes → ℤ → Option Zval → Option Zval → Api
  readlink : Bytes → ℤ → Option Zval → Option Zval → Api
  realpath : Bytes → ℤ → Option Zval → Option Zval → Api
  stat : Bytes → ℤ → Option Zval → Option Zval → Api
  lstat : Bytes → ℤ → Option Zval → Option Zval → Api
  statvfs : Bytes → ℤ → Option Zval → Option Zval → Api
  readdir : Bytes → ℤ → ℤ → Option Zval → Option Zval → Api
  close : Zval → ℤ → Option Zval → Option Zval → Api
  fsync : Zval → ℤ → Option Zval → Option Zval → Api
  fdatasync : Zval → ℤ → Option Zval → Option Zval → Api
  futime : Zval → ℕ → ℕ → ℤ → Option Zval → Option Zval → Api
  ftruncate : Zval → ℤ → ℤ → Option Zval → Option Zval → Api
  fchmod : Zval → ℤ → ℤ → Option Zval → Option Zval → Api
  fchown : Zval → ℤ → ℤ → ℤ → Option Zval → Option Zval → Api
  dup2 : Zval → Zval → ℤ → Option Zval → Option Zval → Api
  read : Zval → ℤ → ℤ → ℤ → Option Zval → Option Zval → Api
  fstat : Zval → ℤ → Option Zval → Option Zval → Api
  fstatvfs : Zval → ℤ → Option Zval → Option Zval → Api
  sendfile : Zval → Zval → ℤ → ℤ → ℤ → Option Zval → Option Zval → Api
  readahead : Zval → ℤ → ℤ → ℤ → Option Zval → Option Zval → Api
  seek : Zval → ℤ → ℤ → ℤ → Option Zval → Option Zval → Api
  syncfs : Zval → ℤ → Option Zval → Option Zval → Api
  sync_file_range : Zval → ℤ → ℤ → ℤ → ℤ → Option Zval → Option Zval → Api
  fallocate : Zval → ℤ → ℤ → ℤ → ℤ → Option Zval → Option Zval → Api
  sync : ℤ → Option Zval → Option Zval → Api
  busy : ℤ → ℤ → Option Zval → Option Zval → Api
  nop : ℤ → Option Zval → Option Zval → Api
  grp : Option Zval → Option Zval → Api
  custom : Option Zval → ℤ → Option Zval → Option Zval → Api

unfoldable pub run : Env → Api → Function
unfolding Paths.eio_open Paths.eio_truncate Paths.eio_chown Paths.eio_chmod Paths.eio_mkdir
    Paths.eio_rmdir Paths.eio_unlink Paths.eio_utime Paths.eio_mknod Paths.eio_link
    Paths.eio_symlink Paths.eio_rename Paths.eio_readlink Paths.eio_realpath Paths.eio_stat
    Paths.eio_lstat Paths.eio_statvfs Paths.eio_readdir Descriptors.eio_close Descriptors.eio_fsync
    Descriptors.eio_fdatasync Descriptors.eio_futime Descriptors.eio_ftruncate
    Descriptors.eio_fchmod Descriptors.eio_fchown Descriptors.eio_dup2 Descriptors.eio_read
    Descriptors.eio_fstat Descriptors.eio_fstatvfs Descriptors.eio_sendfile
    Descriptors.eio_readahead Descriptors.eio_seek Descriptors.eio_syncfs
    Descriptors.eio_sync_file_range Descriptors.eio_fallocate Special.eio_sync Special.eio_busy
    Special.eio_nop Special.eio_grp Special.eio_custom
run env (open_file x0 x1 x2 x3 x4 x5) = Paths.eio_open env x0 x1 x2 x3 x4 x5
run env (truncate x0 x1 x2 x3 x4) = Paths.eio_truncate env x0 x1 x2 x3 x4
run env (chown x0 x1 x2 x3 x4 x5) = Paths.eio_chown env x0 x1 x2 x3 x4 x5
run env (chmod x0 x1 x2 x3 x4) = Paths.eio_chmod env x0 x1 x2 x3 x4
run env (mkdir x0 x1 x2 x3 x4) = Paths.eio_mkdir env x0 x1 x2 x3 x4
run env (rmdir x0 x1 x2 x3) = Paths.eio_rmdir env x0 x1 x2 x3
run env (unlink x0 x1 x2 x3) = Paths.eio_unlink env x0 x1 x2 x3
run env (utime x0 x1 x2 x3 x4 x5) = Paths.eio_utime env x0 x1 x2 x3 x4 x5
run env (mknod x0 x1 x2 x3 x4 x5) = Paths.eio_mknod env x0 x1 x2 x3 x4 x5
run env (link x0 x1 x2 x3 x4) = Paths.eio_link env x0 x1 x2 x3 x4
run env (symlink x0 x1 x2 x3 x4) = Paths.eio_symlink env x0 x1 x2 x3 x4
run env (rename x0 x1 x2 x3 x4) = Paths.eio_rename env x0 x1 x2 x3 x4
run env (readlink x0 x1 x2 x3) = Paths.eio_readlink env x0 x1 x2 x3
run env (realpath x0 x1 x2 x3) = Paths.eio_realpath env x0 x1 x2 x3
run env (stat x0 x1 x2 x3) = Paths.eio_stat env x0 x1 x2 x3
run env (lstat x0 x1 x2 x3) = Paths.eio_lstat env x0 x1 x2 x3
run env (statvfs x0 x1 x2 x3) = Paths.eio_statvfs env x0 x1 x2 x3
run env (readdir x0 x1 x2 x3 x4) = Paths.eio_readdir env x0 x1 x2 x3 x4
run env (close x0 x1 x2 x3) = Descriptors.eio_close env x0 x1 x2 x3
run env (fsync x0 x1 x2 x3) = Descriptors.eio_fsync env x0 x1 x2 x3
run env (fdatasync x0 x1 x2 x3) = Descriptors.eio_fdatasync env x0 x1 x2 x3
run env (futime x0 x1 x2 x3 x4 x5) = Descriptors.eio_futime env x0 x1 x2 x3 x4 x5
run env (ftruncate x0 x1 x2 x3 x4) = Descriptors.eio_ftruncate env x0 x1 x2 x3 x4
run env (fchmod x0 x1 x2 x3 x4) = Descriptors.eio_fchmod env x0 x1 x2 x3 x4
run env (fchown x0 x1 x2 x3 x4 x5) = Descriptors.eio_fchown env x0 x1 x2 x3 x4 x5
run env (dup2 x0 x1 x2 x3 x4) = Descriptors.eio_dup2 env x0 x1 x2 x3 x4
run env (read x0 x1 x2 x3 x4 x5) = Descriptors.eio_read env x0 x1 x2 x3 x4 x5
run env (fstat x0 x1 x2 x3) = Descriptors.eio_fstat env x0 x1 x2 x3
run env (fstatvfs x0 x1 x2 x3) = Descriptors.eio_fstatvfs env x0 x1 x2 x3
run env (sendfile x0 x1 x2 x3 x4 x5 x6) = Descriptors.eio_sendfile env x0 x1 x2 x3 x4 x5 x6
run env (readahead x0 x1 x2 x3 x4 x5) = Descriptors.eio_readahead env x0 x1 x2 x3 x4 x5
run env (seek x0 x1 x2 x3 x4 x5) = Descriptors.eio_seek env x0 x1 x2 x3 x4 x5
run env (syncfs x0 x1 x2 x3) = Descriptors.eio_syncfs env x0 x1 x2 x3
run env (sync_file_range x0 x1 x2 x3 x4 x5 x6) =
    Descriptors.eio_sync_file_range env x0 x1 x2 x3 x4 x5 x6
run env (fallocate x0 x1 x2 x3 x4 x5 x6) = Descriptors.eio_fallocate env x0 x1 x2 x3 x4 x5 x6
run env (sync x0 x1 x2) = Special.eio_sync env x0 x1 x2
run env (busy x0 x1 x2 x3) = Special.eio_busy env x0 x1 x2 x3
run env (nop x0 x1 x2) = Special.eio_nop env x0 x1 x2
run env (grp x0 x1) = Special.eio_grp env x0 x1
run env (custom x0 x1 x2 x3) = Special.eio_custom env x0 x1 x2 x3
