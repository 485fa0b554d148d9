-- ===== src/Readdir/RoundTrip.antt =====
-- The arrays that PHP gets are the directory that libeio read.
use pecl_eio.Base.{
  ℕ, ◌+◌, ◌≡◌, refl, true, false, Option, some, List, [], ◌∷◌, ◌++◌, arith, length, leb, ap, ◌∙◌,
  sym, take-length_append, drop-length_append,
}
use mathlib.Core.List.{append_assoc}
use pecl_eio.Zend.{Bytes}
use pecl_eio.World.{has_nul}
use pecl_eio.Readdir.{c_string, set_readdir_names, Dirent, Dent, slice, set_readdir_dent_and_names}

-- How libeio documents its buffer: the names one after another, each with a NUL byte. `rest` is what
-- follows them.
abbrev pub buffer : List Bytes → Bytes → Bytes
buffer [] rest = rest
buffer (name ∷ names) rest = name ++ 0 ∷ buffer names rest

abbrev pub AllNulFree : List Bytes → Type 0
AllNulFree [] = Unit {0}
AllNulFree (name ∷ names) = (has_nul name ≡ false) × AllNulFree names

c_string-append :
    (name rest : Bytes) → has_nul name ≡ false → c_string (name ++ 0 ∷ rest) ≡ some (name, rest)
unfolding c_string
c_string-append [] rest h = refl
c_string-append (c ∷ cs) rest h = ground (arith, c_string-append cs rest)

-- For names without NUL bytes, laid out one after another, each with a NUL byte,
-- `php_eio_set_readdir_names` never reads past the buffer and gives the same names in the same
-- order.
pub set_readdir_names-buffer :
    (names : List Bytes) (rest : Bytes)
    → AllNulFree names
    → set_readdir_names (length names) (buffer names rest) ≡ some names
unfolding set_readdir_names
set_readdir_names-buffer [] rest h = refl
set_readdir_names-buffer (name ∷ names) rest h =
    rw (c_string-append name (buffer names rest) h.0, set_readdir_names-buffer names rest h.1) refl

-- The entries that libeio describes the directory `ds` with, its names starting at `ofs`.
abbrev pub dirents : ℕ → List Dent → List Dirent
dirents ofs [] = []
dirents ofs (d ∷ ds) =
    record { nameofs = ofs; namelen = length d.name; type = d.type; inode = d.inode }
    ∷ dirents (ofs + (length d.name + 1)) ds

abbrev pub names_of : List Dent → List Bytes
names_of [] = []
names_of (d ∷ ds) = d.name ∷ names_of ds

length-append : (xs ys : Bytes) → length (xs ++ ys) ≡ length xs + length ys
length-append [] ys = omega arith
length-append (x ∷ xs) ys = ground (arith, length-append xs ys)

slice_middle :
    (before name after : Bytes)
    → slice (length before) (length name) (before ++ (name ++ after)) ≡ some name
unfolding slice
slice_middle before name after =
    let fits : leb (length before + length name) (length (before ++ (name ++ after))) ≡ true =
      ground (arith, length-append before (name ++ after), length-append name after) in
    rw (fits, drop-length_append before (name ++ after), take-length_append name after) refl

dents_moved :
    {o o' : ℕ} {b b' : Bytes} (ds : List Dent) (out : Option (List Bytes × List Dent))
    → o' ≡ o
    → b' ≡ b
    → set_readdir_dent_and_names (length ds) (dirents o' ds) b' ≡ out
    → set_readdir_dent_and_names (length ds) (dirents o ds) b ≡ out
dents_moved ds out e f h = rw (sym e, sym f) h

dents_at :
    (before : Bytes) (ds : List Dent) (rest : Bytes)
    → set_readdir_dent_and_names
        (length ds)
        (dirents (length before) ds)
        (before ++ buffer (names_of ds) rest)
      ≡ some (names_of ds, ds)
unfolding set_readdir_dent_and_names
dents_at before [] rest = refl
dents_at before (d ∷ ds) rest =
    let tail = buffer (names_of ds) rest in
    let next = dents_at (before ++ (d.name ++ 0 ∷ [])) ds rest in
    let ofs : length (before ++ (d.name ++ 0 ∷ [])) ≡ length before + (length d.name + 1) =
      ground (arith, length-append before (d.name ++ 0 ∷ []), length-append d.name (0 ∷ [])) in
    let same : (before ++ (d.name ++ 0 ∷ [])) ++ tail ≡ before ++ (d.name ++ 0 ∷ tail) =
      append_assoc before (d.name ++ 0 ∷ []) tail
      ∙ ap (λ t. before ++ t) (append_assoc d.name (0 ∷ []) tail) in
    let moved = dents_moved ds (some (names_of ds, ds)) ofs same next in
    rw (slice_middle before d.name (0 ∷ tail), moved) refl

-- For the entries that describe a directory, its names laid out one after another, each with a NUL
-- byte, `php_eio_set_readdir_dent_and_names` never reads past the buffer and gives the names and
-- the entries of the directory, in the same order.
pub set_readdir_dent_and_names-dirents :
    (ds : List Dent) (rest : Bytes)
    → set_readdir_dent_and_names (length ds) (dirents 0 ds) (buffer (names_of ds) rest)
      ≡ some (names_of ds, ds)
set_readdir_dent_and_names-dirents ds rest = dents_at [] ds rest
