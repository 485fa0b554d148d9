-- ===== src/Handles/Table.antt =====
-- The hash table `php_eio_handles`, from the address of a request to that of its handle.
use pecl_eio.Base.{
  ℕ, ◌≡◌, refl, Option, none, some, List, [], ◌∷◌, ◌++◌, arith, ◌==◌, if◌then◌else◌,
}

abbrev pub HandleTable : Type 0
HandleTable = List (ℕ × ℕ)

-- `zend_hash_index_find_ptr`
unfoldable pub find : ℕ → HandleTable → Option ℕ
find r [] = none
find r ((k, a) ∷ t) = if k == r then some a else find r t

-- `zend_hash_index_del`
unfoldable pub del : ℕ → HandleTable → HandleTable
del r [] = []
del r ((k, a) ∷ t) = if k == r then t else (k, a) ∷ del r t

-- No key occurs twice.
abbrev pub Distinct : HandleTable → Type 0
Distinct [] = Unit {0}
Distinct ((k, a) ∷ t) = (find k t ≡ none) × Distinct t

pub find-del :
    (r r' : ℕ) (t : HandleTable)
    → Distinct t
    → find r' (del r t) ≡ (if r == r' then none else find r' t)
unfolding find del
find-del r r' [] d = ground arith
find-del r r' ((k, a) ∷ t) d = ground (arith, find-del r r' t d.1)

pub del-Distinct : (r : ℕ) (t : HandleTable) → Distinct t → Distinct (del r t)
unfolding del
del-Distinct r [] d = tt
del-Distinct r ((k, a) ∷ t) d = ground (arith, del-Distinct r t d.1, find-del r k t d.1)

-- The value of `o`, or else `d`.
abbrev pub or_else : Option ℕ → Option ℕ → Option ℕ
or_else none d = d
or_else (some a) d = some a

pub find-append :
    (r a r' : ℕ) (t : HandleTable)
    → find r' (t ++ (r, a) ∷ []) ≡ or_else (find r' t) (if r == r' then some a else none)
unfolding find
find-append r a r' [] = refl
find-append r a r' ((k, b) ∷ t) = ground (arith, find-append r a r' t)

pub append-Distinct :
    (r a : ℕ) (t : HandleTable) → find r t ≡ none → Distinct t → Distinct (t ++ (r, a) ∷ [])
unfolding find
append-Distinct r a [] e d = (refl, tt)
append-Distinct r a ((k, b) ∷ t) e d = ground (arith, append-Distinct r a t, find-append r a k t)
