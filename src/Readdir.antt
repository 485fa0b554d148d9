-- ===== src/Readdir.antt =====
-- The results of `eio_readdir`: php8/php_eio.c, `php_eio_set_readdir_names` and
-- `php_eio_set_readdir_dent_and_names`. `none` is a read past the end of a buffer.
pub mod RoundTrip
mod Tests
use pecl_eio.Base.{
  ℕ, zero, suc, ◌+◌, Option, none, some, List, [], ◌∷◌, ◌==◌, leb, if◌then◌else◌, ◌>>=◌, length,
  take, drop,
}
use pecl_eio.Zend.{Bytes}

-- The string that starts a buffer, up to its NUL byte, and what follows that byte.
unfoldable pub c_string : Bytes → Option (Bytes × Bytes)
c_string [] = none
c_string (c ∷ cs) =
    let rest = c_string cs in
    if c == 0 then some ([], cs) else (rest >>= λ (s, after). some (c ∷ s, after))

-- `php_eio_set_readdir_names`: `n` is EIO_RESULT(req), `names` EIO_BUF(req).
unfoldable pub set_readdir_names : ℕ → Bytes → Option (List Bytes)
unfolding c_string
set_readdir_names zero names = some []
set_readdir_names (suc n) names = do
  (name, names) ← c_string names
  rest ← set_readdir_names n names
  some (name ∷ rest)

-- `struct eio_dirent` (libeio/eio.h)
pub record Dirent : Type 0 where
  pub nameofs : ℕ
  pub namelen : ℕ
  pub type : ℕ
  pub inode : ℕ

-- One element of the array `dents`.
pub record Dent : Type 0 where
  pub name : Bytes
  pub type : ℕ
  pub inode : ℕ

-- The `len` bytes at the offset `ofs`.
unfoldable pub slice : ℕ → ℕ → Bytes → Option Bytes
slice ofs len buf = if leb (ofs + len) (length buf) then some (take len (drop ofs buf)) else none

-- `php_eio_set_readdir_dent_and_names`: the arrays `names` and `dents`.
unfoldable pub set_readdir_dent_and_names :
    ℕ → List Dirent → Bytes → Option (List Bytes × List Dent)
unfolding slice
set_readdir_dent_and_names zero ents names = some ([], [])
set_readdir_dent_and_names (suc n) [] names = none
set_readdir_dent_and_names (suc n) (ent ∷ ents) names = do
  name ← slice ent.nameofs ent.namelen names
  (rest, dents) ← set_readdir_dent_and_names n ents names
  let dent : Dent = record { name = name; type = ent.type; inode = ent.inode }
  some (name ∷ rest, dent ∷ dents)
