-- ===== src/Readdir/Tests.antt =====
-- A directory of two files.
use pecl_eio.Base.{◌≡◌, refl, some, List, [], ◌∷◌}
use pecl_eio.Readdir.{Dent, set_readdir_names, set_readdir_dent_and_names}
use pecl_eio.Readdir.RoundTrip.{
  buffer, dirents, names_of, set_readdir_names-buffer, set_readdir_dent_and_names-dirents,
}

abbrev two_files : List Dent
two_files =
    record { name = 97 ∷ 98 ∷ []; type = 8; inode = 11 }
    ∷ record { name = 99 ∷ []; type = 4; inode = 12 }
    ∷ []

set_readdir_names-buffer_example :
    set_readdir_names 2 (buffer (names_of two_files) (7 ∷ [])) ≡ some (names_of two_files)
set_readdir_names-buffer_example =
    set_readdir_names-buffer (names_of two_files) (7 ∷ []) (refl, (refl, tt))

set_readdir_dent_and_names-dirents_example :
    set_readdir_dent_and_names 2 (dirents 0 two_files) (buffer (names_of two_files) [])
    ≡ some (names_of two_files, two_files)
set_readdir_dent_and_names-dirents_example = set_readdir_dent_and_names-dirents two_files []
