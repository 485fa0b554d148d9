-- ===== src/Api/Closing.antt =====
-- What holds of every function that makes requests, where it holds of the parts that they are made of.
use pecl_eio.Base.{◌≡◌, arith, refl, Bool, true, false, Option, if◌then◌else◌}
use pecl_eio.Base.Int.{ℤ, to_uint}
use pecl_eio.Request.{is_plain}
use pecl_eio.Zend.{Bytes, Zval, Warning, invalid_ids}
use pecl_eio.World.{
  Call, type_of, Env, Function, false_value, true_value, give, request, with_fd, check_path,
  parse_path,
}
use pecl_eio.Api.Paths.{start, refuse}
use pecl_eio.Api.Descriptors.{with_fds}
use pecl_eio.Api.Special.{eio_grp}
use pecl_eio.Api.Running.{Api, run}

-- A property of functions that the parts of the functions of the extension have.
pub record Closed (env : Env) (P : Function → Type 0) : Type 0 where
  pub start : (f : Function) → P f → P (start env f)
  pub check_path : (path : Bytes) (f : Function) → P f → P (check_path path f)
  pub parse_path : (path : Bytes) (f : Function) → P f → P (parse_path path f)
  pub branch : (b : Bool) (f g : Function) → P f → P g → P (if b then f else g)
  pub give_false : P (give false_value)
  pub give_true : P (give true_value)
  pub refuse : (m : Warning) → P (refuse m)
  pub with_fd : (zfd : Zval) (f : ℤ → Function) → ((fd : ℤ) → P (f fd)) → P (with_fd env zfd f)
  pub with_fds :
      (zfd zfd2 : Zval) (f : ℤ → ℤ → Function)
      → ((fd fd2 : ℤ) → P (f fd fd2))
      → P (with_fds env zfd zfd2 f)
  pub request :
      (call : Call) (pri : ℤ) (zcb arg : Option Zval)
      → is_plain (type_of call) ≡ true
      → P (request env call pri zcb arg)
  pub grp : (zcb arg : Option Zval) → P (eio_grp env zcb arg)

abbrev pub is_eio_custom : Api → Bool
is_eio_custom (Api.custom x0 x1 x2 x3) = true
is_eio_custom _ = false

module _ (env : Env) (P : Function → Type 0) (k : Closed env P) where
  -- `eio_custom` makes an object of another kind.
  pub run-Closed : (c : Api) → (is_eio_custom c ≡ true → P (run env c)) → P (run env c)
  unfolding run type_of
  run-Closed (Api.open_file x0 x1 x2 x3 x4 x5) h =
      k.start _ (k.check_path x0 _ (k.request _ x3 x4 x5 (ground arith)))
  run-Closed (Api.truncate x0 x1 x2 x3 x4) h = k.start _ (k.request _ x2 x3 x4 (ground arith))
  run-Closed (Api.chown x0 x1 x2 x3 x4 x5) h = k.start _ (
      k.check_path x0 _
        (k.branch _ _ _ (k.refuse invalid_ids) (k.request _ x3 x4 x5 (ground arith))))
  run-Closed (Api.chmod x0 x1 x2 x3 x4) h =
      k.start _ (k.parse_path x0 _ (k.request _ x2 x3 x4 (ground arith)))
  run-Closed (Api.mkdir x0 x1 x2 x3 x4) h =
      k.start _ (k.parse_path x0 _ (k.request _ x2 x3 x4 (ground arith)))
  run-Closed (Api.rmdir x0 x1 x2 x3) h =
      k.start _ (k.parse_path x0 _ (k.check_path x0 _ (k.request _ x1 x2 x3 (ground arith))))
  run-Closed (Api.unlink x0 x1 x2 x3) h = k.start _ (
      k.parse_path x0 _
        (k.branch (env.exists_file x0) _ _ (k.request _ x1 x2 x3 (ground arith)) k.give_true))
  run-Closed (Api.utime x0 x1 x2 x3 x4 x5) h =
      k.start _ (k.parse_path x0 _ (k.check_path x0 _ (k.request _ x3 x4 x5 (ground arith))))
  run-Closed (Api.mknod x0 x1 x2 x3 x4 x5) h =
      k.start _ (k.parse_path x0 _ (k.check_path x0 _ (k.request _ x3 x4 x5 (ground arith))))
  run-Closed (Api.link x0 x1 x2 x3 x4) h = k.start _ (
      k.parse_path x0 _ (
        k.parse_path x1 _
          (k.check_path x0 _ (k.check_path x1 _ (k.request _ x2 x3 x4 (ground arith))))))
  run-Closed (Api.symlink x0 x1 x2 x3 x4) h = k.start _ (
      k.parse_path x0 _ (
        k.parse_path x1 _
          (k.check_path x0 _ (k.check_path x1 _ (k.request _ x2 x3 x4 (ground arith))))))
  run-Closed (Api.rename x0 x1 x2 x3 x4) h = k.start _ (
      k.parse_path x0 _ (
        k.parse_path x1 _
          (k.check_path x0 _ (k.check_path x1 _ (k.request _ x2 x3 x4 (ground arith))))))
  run-Closed (Api.readlink x0 x1 x2 x3) h =
      k.start _ (k.check_path x0 _ (k.request _ x1 x2 x3 (ground arith)))
  run-Closed (Api.realpath x0 x1 x2 x3) h =
      k.start _ (k.check_path x0 _ (k.request _ x1 x2 x3 (ground arith)))
  run-Closed (Api.stat x0 x1 x2 x3) h =
      k.start _ (k.check_path x0 _ (k.request _ x1 x2 x3 (ground arith)))
  run-Closed (Api.lstat x0 x1 x2 x3) h =
      k.start _ (k.check_path x0 _ (k.request _ x1 x2 x3 (ground arith)))
  run-Closed (Api.statvfs x0 x1 x2 x3) h =
      k.start _ (k.check_path x0 _ (k.request _ x1 x2 x3 (ground arith)))
  run-Closed (Api.readdir x0 x1 x2 x3 x4) h = k.start _ (k.request _ x2 x3 x4 (ground arith))
  run-Closed (Api.close x0 x1 x2 x3) h =
      k.start _ (k.with_fd x0 _ (λ _. k.request _ x1 x2 x3 (ground arith)))
  run-Closed (Api.fsync x0 x1 x2 x3) h =
      k.start _ (k.with_fd x0 _ (λ _. k.request _ x1 x2 x3 (ground arith)))
  run-Closed (Api.fdatasync x0 x1 x2 x3) h =
      k.start _ (k.with_fd x0 _ (λ _. k.request _ x1 x2 x3 (ground arith)))
  run-Closed (Api.futime x0 x1 x2 x3 x4 x5) h =
      k.start _ (k.with_fd x0 _ (λ _. k.request _ x3 x4 x5 (ground arith)))
  run-Closed (Api.ftruncate x0 x1 x2 x3 x4) h =
      k.start _ (k.with_fd x0 _ (λ _. k.request _ x2 x3 x4 (ground arith)))
  run-Closed (Api.fchmod x0 x1 x2 x3 x4) h =
      k.start _ (k.with_fd x0 _ (λ _. k.request _ x2 x3 x4 (ground arith)))
  run-Closed (Api.fchown x0 x1 x2 x3 x4 x5) h =
      k.start _
        (k.branch _ _ _ k.give_false (k.with_fd x0 _ (λ _. k.request _ x3 x4 x5 (ground arith))))
  run-Closed (Api.dup2 x0 x1 x2 x3 x4) h =
      k.start _ (k.with_fds x0 x1 _ (λ a b. k.request (Call.dup2 a b) x2 x3 x4 (ground arith)))
  run-Closed (Api.read x0 x1 x2 x3 x4 x5) h =
      k.start _ (k.with_fd x0 _ (λ _. k.request _ x3 x4 x5 (ground arith)))
  run-Closed (Api.fstat x0 x1 x2 x3) h =
      k.start _ (k.with_fd x0 _ (λ _. k.request _ x1 x2 x3 (ground arith)))
  run-Closed (Api.fstatvfs x0 x1 x2 x3) h =
      k.start _ (k.with_fd x0 _ (λ _. k.request _ x1 x2 x3 (ground arith)))
  run-Closed (Api.sendfile x0 x1 x2 x3 x4 x5 x6) h = k.start _ (
      k.with_fds x0 x1 _
        (λ a b. k.request (Call.sendfile a b x2 (to_uint 64 x3)) x4 x5 x6 (ground arith)))
  run-Closed (Api.readahead x0 x1 x2 x3 x4 x5) h =
      k.start _ (k.with_fd x0 _ (λ _. k.request _ x3 x4 x5 (ground arith)))
  run-Closed (Api.seek x0 x1 x2 x3 x4 x5) h =
      k.start _ (k.with_fd x0 _ (λ _. k.request _ x3 x4 x5 (ground arith)))
  run-Closed (Api.syncfs x0 x1 x2 x3) h =
      k.start _ (k.with_fd x0 _ (λ _. k.request _ x1 x2 x3 (ground arith)))
  run-Closed (Api.sync_file_range x0 x1 x2 x3 x4 x5 x6) h =
      k.start _ (k.with_fd x0 _ (λ _. k.request _ x4 x5 x6 (ground arith)))
  run-Closed (Api.fallocate x0 x1 x2 x3 x4 x5 x6) h =
      k.start _ (k.with_fd x0 _ (λ _. k.request _ x4 x5 x6 (ground arith)))
  run-Closed (Api.sync x0 x1 x2) h = k.start _ (k.request _ x0 x1 x2 (ground arith))
  run-Closed (Api.busy x0 x1 x2 x3) h = k.start _ (k.request _ x1 x2 x3 (ground arith))
  run-Closed (Api.nop x0 x1 x2) h = k.start _ (k.request _ x0 x1 x2 (ground arith))
  run-Closed (Api.grp x0 x1) h = k.grp x0 x1
  run-Closed (Api.custom x0 x1 x2 x3) h = h refl
