-- ===== src/Api/Refusals.antt =====
-- Which calls are refused: paths with NUL bytes, and bad descriptors.
use pecl_eio.Base.{
  ◌≡◌, inl, inr, refl, true, false, ◌&&◌, ◌||◌, Bool, Option, none, some, List, [], ◌∷◌, Bool-cases,
  arith, ◌∙◌, if◌then◌else◌,
}
use pecl_eio.Base.Int.{ℤ, is_neg, to_uint}
use pecl_eio.Base.Returns.{Returns, returns}
use pecl_eio.Zend.{Bytes, Zval, Exception, throw, path_with_nul}
use pecl_eio.Fd.{zval_to_fd}
use pecl_eio.World.{
  World, Env, Ret, Call, Function, false_value, initialized, bails, check_path, parse_path, has_nul,
  null_value, with_php, throwing, use_fd, with_fd, request,
}
use pecl_eio.Api.Descriptors.{with_fds}
use pecl_eio.Api.Running.{Api, run}

-- The paths that a function parses as strings, and whose length it then checks itself.
abbrev pub checked_paths : Api → List Bytes
checked_paths (Api.open_file path _ _ _ _ _) = path ∷ []
checked_paths (Api.chown path _ _ _ _ _) = path ∷ []
checked_paths (Api.readlink path _ _ _) = path ∷ []
checked_paths (Api.realpath path _ _ _) = path ∷ []
checked_paths (Api.stat path _ _ _) = path ∷ []
checked_paths (Api.lstat path _ _ _) = path ∷ []
checked_paths (Api.statvfs path _ _ _) = path ∷ []
checked_paths _ = []

-- The paths that a function has `zend_parse_parameters` check.
abbrev pub parsed_paths : Api → List Bytes
parsed_paths (Api.chmod path _ _ _ _) = path ∷ []
parsed_paths (Api.mkdir path _ _ _ _) = path ∷ []
parsed_paths (Api.rmdir path _ _ _) = path ∷ []
parsed_paths (Api.unlink path _ _ _) = path ∷ []
parsed_paths (Api.utime path _ _ _ _ _) = path ∷ []
parsed_paths (Api.mknod path _ _ _ _ _) = path ∷ []
parsed_paths (Api.link path new_path _ _ _) = path ∷ new_path ∷ []
parsed_paths (Api.symlink path new_path _ _ _) = path ∷ new_path ∷ []
parsed_paths (Api.rename path new_path _ _ _) = path ∷ new_path ∷ []
parsed_paths _ = []

abbrev pub any_nul : List Bytes → Bool
any_nul [] = false
any_nul (p ∷ ps) = has_nul p || any_nul ps

-- NULL, with a ValueError and nothing else done.
abbrev pub invalid_path : World → Option (Ret × World)
invalid_path w = some (null_value, with_php w (throw path_with_nul w.php))

module _ (env : Env) where
  checked_nul :
      (c : Api) (w : World)
      → bails env w ≡ false
      → any_nul (checked_paths c) ≡ true
      → run env c w ≡ some (false_value, initialized env w)
  unfolding run check_path
  checked_nul (Api.chown path _ _ _ _ _) w ok h = ground arith
  checked_nul _ w ok h = ground arith

  parsed_nul :
      (c : Api) (w : World)
      → bails env w ≡ false
      → any_nul (parsed_paths c) ≡ true
      → run env c w ≡ invalid_path (initialized env w)
  unfolding run parse_path
  parsed_nul (Api.link path new_path _ _ _) w ok h = ground arith
  parsed_nul _ w ok h = ground arith

  -- Where the initialization reports no fatal error, no path with a NUL byte comes to libeio, but
  -- by `eio_truncate` and `eio_readdir`: `eio_open`, `eio_chown`, `eio_readlink`, `eio_realpath`,
  -- `eio_stat`, `eio_lstat` and `eio_statvfs` return FALSE, and do no more than the initialization;
  -- `eio_chmod`, `eio_mkdir`, `eio_rmdir`, `eio_unlink`, `eio_utime`, `eio_mknod`, `eio_link`,
  -- `eio_symlink` and `eio_rename` throw one ValueError after the initialization and return NULL.
  pub run-nul :
      (c : Api) (w : World)
      → bails env w ≡ false
      → any_nul (checked_paths c) || any_nul (parsed_paths c) ≡ true
      → run env c w ≡ (
          if any_nul (parsed_paths c)
          then invalid_path (initialized env w)
          else some (false_value, initialized env w))
  run-nul c w ok h = elim (Bool-cases (any_nul (parsed_paths c))) [
    | inl e ↦ rw e (parsed_nul c w ok e)
    | inr e ↦ rw e (checked_nul c w ok (ground arith))
  ]

-- The descriptors that a function takes.
abbrev pub descriptors : Api → List Zval
descriptors (Api.close fd _ _ _) = fd ∷ []
descriptors (Api.fsync fd _ _ _) = fd ∷ []
descriptors (Api.fdatasync fd _ _ _) = fd ∷ []
descriptors (Api.futime fd _ _ _ _ _) = fd ∷ []
descriptors (Api.ftruncate fd _ _ _ _) = fd ∷ []
descriptors (Api.fchmod fd _ _ _ _) = fd ∷ []
descriptors (Api.fchown fd _ _ _ _ _) = fd ∷ []
descriptors (Api.dup2 fd fd2 _ _ _) = fd ∷ fd2 ∷ []
descriptors (Api.read fd _ _ _ _ _) = fd ∷ []
descriptors (Api.fstat fd _ _ _) = fd ∷ []
descriptors (Api.fstatvfs fd _ _ _) = fd ∷ []
descriptors (Api.sendfile fd fd2 _ _ _ _ _) = fd ∷ fd2 ∷ []
descriptors (Api.readahead fd _ _ _ _ _) = fd ∷ []
descriptors (Api.seek fd _ _ _ _ _) = fd ∷ []
descriptors (Api.syncfs fd _ _ _) = fd ∷ []
descriptors (Api.sync_file_range fd _ _ _ _ _ _) = fd ∷ []
descriptors (Api.fallocate fd _ _ _ _ _ _) = fd ∷ []
descriptors _ = []

-- FALSE, with the requests and the resources as they were.
abbrev pub Refused : World → Ret × World → Type 0
Refused w (ret, w') = (ret ≡ false_value) × (w'.submitted ≡ w.submitted) × (w'.store ≡ w.store)

module _ (env : Env) where
  abbrev pub any_bad : List Zval → Bool
  any_bad [] = false
  any_bad (z ∷ zs) = is_neg (zval_to_fd env.fds z).0 || any_bad zs

  throwing_same :
      (e : Option Exception) (w : World)
      → ((throwing env e w).submitted ≡ w.submitted) × ((throwing env e w).store ≡ w.store)
  throwing_same none w = (refl, refl)
  throwing_same (some e) w = (refl, refl)

  with_fd-Refused :
      (zfd : Zval) (k : ℤ → Function) (w : World)
      → is_neg (zval_to_fd env.fds zfd).0 || false ≡ true
      → Returns (Refused w) (with_fd env zfd k (initialized env w))
  unfolding with_fd use_fd
  with_fd-Refused zfd k w h =
      let bad : is_neg (zval_to_fd env.fds zfd).0 ≡ true = ground arith in
      let same = throwing_same (zval_to_fd env.fds zfd).1 (initialized env w) in
      rw bad (returns (refl, same.0, same.1))

  with_fds-Refused :
      (zfd zfd2 : Zval) (k : ℤ → ℤ → Function) (w : World)
      → is_neg (zval_to_fd env.fds zfd).0 || (is_neg (zval_to_fd env.fds zfd2).0 || false) ≡ true
      → Returns (Refused w) (with_fds env zfd zfd2 k (initialized env w))
  unfolding with_fds
  with_fds-Refused zfd zfd2 k w h =
      let bad : (is_neg (zval_to_fd env.fds zfd).0 || is_neg (zval_to_fd env.fds zfd2).0) ≡ true =
        ground arith in
      let w1 = throwing env (zval_to_fd env.fds zfd).1 (initialized env w) in
      let one = throwing_same (zval_to_fd env.fds zfd).1 (initialized env w) in
      let two = throwing_same (zval_to_fd env.fds zfd2).1 w1 in
      rw bad (returns (refl, two.0 ∙ one.0, two.1 ∙ one.1))

  -- Where the initialization reports no fatal error, each function that takes descriptors (all but
  -- `eio_write`) returns FALSE where one of them converts to a negative number, makes no request,
  -- and leaves the requests and the resources as they were.
  pub run-bad_fd :
      (c : Api) (w : World)
      → bails env w ≡ false
      → any_bad (descriptors c) ≡ true
      → Returns (Refused w) (run env c w)
  unfolding run
  run-bad_fd (Api.dup2 a b pri zcb arg) w ok h =
      rw ok (with_fds-Refused a b (λ fd fd2. request env (Call.dup2 fd fd2) pri zcb arg) w h)
  run-bad_fd (Api.sendfile a b o n pri zcb arg) w ok h = rw ok (
      with_fds-Refused a b
        (λ fd fd2. request env (Call.sendfile fd fd2 o (to_uint 64 n)) pri zcb arg) w h)
  run-bad_fd (Api.fchown a uid gid _ _ _) w ok h = elim (Bool-cases (is_neg uid && is_neg gid)) [
    | inl e ↦ rw (ok, e) (returns (refl, refl, refl))
    | inr e ↦ rw (ok, e) (with_fd-Refused a _ w h)
  ]
  run-bad_fd (Api.close a _ _ _) w ok h = rw ok (with_fd-Refused a _ w h)
  run-bad_fd (Api.fsync a _ _ _) w ok h = rw ok (with_fd-Refused a _ w h)
  run-bad_fd (Api.fdatasync a _ _ _) w ok h = rw ok (with_fd-Refused a _ w h)
  run-bad_fd (Api.futime a _ _ _ _ _) w ok h = rw ok (with_fd-Refused a _ w h)
  run-bad_fd (Api.ftruncate a _ _ _ _) w ok h = rw ok (with_fd-Refused a _ w h)
  run-bad_fd (Api.fchmod a _ _ _ _) w ok h = rw ok (with_fd-Refused a _ w h)
  run-bad_fd (Api.read a _ _ _ _ _) w ok h = rw ok (with_fd-Refused a _ w h)
  run-bad_fd (Api.fstat a _ _ _) w ok h = rw ok (with_fd-Refused a _ w h)
  run-bad_fd (Api.fstatvfs a _ _ _) w ok h = rw ok (with_fd-Refused a _ w h)
  run-bad_fd (Api.readahead a _ _ _ _ _) w ok h = rw ok (with_fd-Refused a _ w h)
  run-bad_fd (Api.seek a _ _ _ _ _) w ok h = rw ok (with_fd-Refused a _ w h)
  run-bad_fd (Api.syncfs a _ _ _) w ok h = rw ok (with_fd-Refused a _ w h)
  run-bad_fd (Api.sync_file_range a _ _ _ _ _ _) w ok h = rw ok (with_fd-Refused a _ w h)
  run-bad_fd (Api.fallocate a _ _ _ _ _ _) w ok h = rw ok (with_fd-Refused a _ w h)
  run-bad_fd _ w ok h = absurd (ground arith)
