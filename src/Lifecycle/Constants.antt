-- ===== src/Lifecycle/Constants.antt =====
-- What the start of the module registers: php8/php_eio.c, `PHP_MINIT_FUNCTION`, the two types of
-- resources and the constants. The values of the C macros are a parameter.
use pecl_eio.Base.{
  ℕ, ◌≡◌, Bool, true, Option, none, some, List, [], ◌∷◌, ◌++◌, ◌==◌, if◌then◌else◌, map, arith,
}
use pecl_eio.Base.Int.{ℤ}

-- The constants of PHP code, each without the prefix `EIO_`.
pub data Constant : Type 0 where
  debug seek_set seek_cur seek_end pri_min pri_default pri_max readdir_dents readdir_dirs_first :
      Constant
  readdir_stat_order readdir_found_unknown dt_unknown dt_fifo dt_chr dt_mpc dt_dir dt_nam dt_blk :
      Constant
  dt_mpb dt_reg dt_nwk dt_cmp dt_lnk dt_sock dt_door dt_wht dt_max o_rdonly o_wronly o_rdwr :
      Constant
  o_nonblock o_append o_creat o_trunc o_excl o_fsync s_irusr s_iwusr s_ixusr s_irgrp s_iwgrp :
      Constant
  s_ixgrp s_iroth s_iwoth s_ixoth s_ifreg s_ifchr s_ifblk s_ififo s_ifsock : Constant
  sync_file_range_wait_before sync_file_range_write sync_file_range_wait_after : Constant
  falloc_fl_keep_size : Constant

-- The macros of the system, the flags of `open` and the modes of files: O_RDONLY and so on.
pub data SystemMacro : Type 0 where
  rdonly wronly rdwr nonblock append creat trunc excl fsync : SystemMacro
  irusr iwusr ixusr irgrp iwgrp ixgrp iroth iwoth ixoth : SystemMacro
  ifreg ifchr ifblk ififo ifsock : SystemMacro

-- What the C headers say: the values of the macros `EIO_…`, each by the constant of its name, and of
-- those of the system, and which of the two optional ones there are.
pub record Headers : Type 0 where
  pub eio_macro : Constant → ℤ
  pub system_macro : SystemMacro → ℤ
  pub has_debug : Bool
  pub has_fsync : Bool

-- `EIO_REGISTER_LONG_EIO_CONSTANT`
abbrev pub register_long_eio : Headers → Constant → Constant × ℤ
register_long_eio h c = (c, h.eio_macro c)

-- `EIO_REGISTER_LONG_CONSTANT`
abbrev pub register_long : Constant → ℤ → Constant × ℤ
register_long c z = (c, z)

-- `#ifdef EIO_DEBUG`
abbrev pub debug_constants : Headers → List (Constant × ℤ)
debug_constants h = if h.has_debug then register_long_eio h debug ∷ [] else []

abbrev pub eio_constants : List Constant
eio_constants =
    seek_set ∷ seek_cur ∷ seek_end ∷ pri_min ∷ pri_default ∷ pri_max ∷ readdir_dents
    ∷ readdir_dirs_first ∷ readdir_stat_order ∷ readdir_found_unknown ∷ dt_unknown ∷ dt_fifo
    ∷ dt_chr ∷ dt_mpc ∷ dt_dir ∷ dt_nam ∷ dt_blk ∷ dt_mpb ∷ dt_reg ∷ dt_nwk ∷ dt_cmp ∷ dt_lnk
    ∷ dt_sock ∷ dt_door ∷ dt_wht ∷ dt_max ∷ []

abbrev pub open_constants : Headers → List (Constant × ℤ)
open_constants h =
    register_long o_rdonly (h.system_macro rdonly)
    ∷ register_long o_wronly (h.system_macro wronly)
    ∷ register_long o_rdwr (h.system_macro rdwr)
    ∷ register_long o_nonblock (h.system_macro nonblock)
    ∷ register_long o_append (h.system_macro append)
    ∷ register_long o_creat (h.system_macro creat)
    ∷ register_long o_trunc (h.system_macro trunc)
    ∷ register_long o_excl (h.system_macro excl)
    ∷ []

-- `#ifdef O_FSYNC`
abbrev pub fsync_constants : Headers → List (Constant × ℤ)
fsync_constants h = if h.has_fsync then register_long o_fsync (h.system_macro fsync) ∷ [] else []

abbrev pub mode_constants : Headers → List (Constant × ℤ)
mode_constants h =
    register_long s_irusr (h.system_macro irusr)
    ∷ register_long s_iwusr (h.system_macro iwusr)
    ∷ register_long s_ixusr (h.system_macro ixusr)
    ∷ register_long s_irgrp (h.system_macro irgrp)
    ∷ register_long s_iwgrp (h.system_macro iwgrp)
    ∷ register_long s_ixgrp (h.system_macro ixgrp)
    ∷ register_long s_iroth (h.system_macro iroth)
    ∷ register_long s_iwoth (h.system_macro iwoth)
    ∷ register_long s_ixoth (h.system_macro ixoth)
    ∷ register_long s_ifreg (h.system_macro ifreg)
    ∷ register_long s_ifchr (h.system_macro ifchr)
    ∷ register_long s_ifblk (h.system_macro ifblk)
    ∷ register_long s_ififo (h.system_macro ififo)
    ∷ register_long s_ifsock (h.system_macro ifsock)
    ∷ []

abbrev pub file_range_constants : Headers → List (Constant × ℤ)
file_range_constants h =
    map (register_long_eio h)
      (sync_file_range_wait_before ∷ sync_file_range_write ∷ sync_file_range_wait_after ∷ [])
    ++ register_long falloc_fl_keep_size (h.eio_macro falloc_fl_keep_size) ∷ []

-- The constants, in the order of the source.
unfoldable pub register_constants : Headers → List (Constant × ℤ)
register_constants h =
    debug_constants h
    ++ map (register_long_eio h) eio_constants
    ++ open_constants h
    ++ fsync_constants h
    ++ mode_constants h
    ++ file_range_constants h

-- The place of a constant among all of them.
abbrev pub number : Constant → ℕ
number debug = 0
number seek_set = 1
number seek_cur = 2
number seek_end = 3
number pri_min = 4
number pri_default = 5
number pri_max = 6
number readdir_dents = 7
number readdir_dirs_first = 8
number readdir_stat_order = 9
number readdir_found_unknown = 10
number dt_unknown = 11
number dt_fifo = 12
number dt_chr = 13
number dt_mpc = 14
number dt_dir = 15
number dt_nam = 16
number dt_blk = 17
number dt_mpb = 18
number dt_reg = 19
number dt_nwk = 20
number dt_cmp = 21
number dt_lnk = 22
number dt_sock = 23
number dt_door = 24
number dt_wht = 25
number dt_max = 26
number o_rdonly = 27
number o_wronly = 28
number o_rdwr = 29
number o_nonblock = 30
number o_append = 31
number o_creat = 32
number o_trunc = 33
number o_excl = 34
number o_fsync = 35
number s_irusr = 36
number s_iwusr = 37
number s_ixusr = 38
number s_irgrp = 39
number s_iwgrp = 40
number s_ixgrp = 41
number s_iroth = 42
number s_iwoth = 43
number s_ixoth = 44
number s_ifreg = 45
number s_ifchr = 46
number s_ifblk = 47
number s_ififo = 48
number s_ifsock = 49
number sync_file_range_wait_before = 50
number sync_file_range_write = 51
number sync_file_range_wait_after = 52
number falloc_fl_keep_size = 53

-- `zend_get_constant`: the first of that name.
abbrev pub constant : Constant → List (Constant × ℤ) → Option ℤ
constant c [] = none
constant c ((d, z) ∷ rest) =
    let later = constant c rest in if number d == number c then some z else later

-- Which constants there are.
abbrev pub is_defined : Headers → Constant → Bool
is_defined h debug = h.has_debug
is_defined h o_fsync = h.has_fsync
is_defined h _ = true

-- The macro that a constant is documented to have the value of: the one of its name, for the flags of
-- `open` and the modes the one of the system.
abbrev pub macro_value : Headers → Constant → ℤ
macro_value h o_rdonly = h.system_macro rdonly
macro_value h o_wronly = h.system_macro wronly
macro_value h o_rdwr = h.system_macro rdwr
macro_value h o_nonblock = h.system_macro nonblock
macro_value h o_append = h.system_macro append
macro_value h o_creat = h.system_macro creat
macro_value h o_trunc = h.system_macro trunc
macro_value h o_excl = h.system_macro excl
macro_value h o_fsync = h.system_macro fsync
macro_value h s_irusr = h.system_macro irusr
macro_value h s_iwusr = h.system_macro iwusr
macro_value h s_ixusr = h.system_macro ixusr
macro_value h s_irgrp = h.system_macro irgrp
macro_value h s_iwgrp = h.system_macro iwgrp
macro_value h s_ixgrp = h.system_macro ixgrp
macro_value h s_iroth = h.system_macro iroth
macro_value h s_iwoth = h.system_macro iwoth
macro_value h s_ixoth = h.system_macro ixoth
macro_value h s_ifreg = h.system_macro ifreg
macro_value h s_ifchr = h.system_macro ifchr
macro_value h s_ifblk = h.system_macro ifblk
macro_value h s_ififo = h.system_macro ififo
macro_value h s_ifsock = h.system_macro ifsock
macro_value h c = h.eio_macro c

-- Every constant has the value of its macro, where the macro is defined.
pub constant_lem :
    (h : Headers) (c : Constant)
    → constant c (register_constants h) ≡ (if is_defined h c then some (macro_value h c) else none)
unfolding register_constants
constant_lem h c = ground arith
