-- ===== src/Handles/Resources.antt =====
-- The resources of PHP that belong to the extension: `le_eio_grp` and `le_eio_req`.
use pecl_eio.Base.{
  ℕ, ◌+◌, ◌≤◌, ◌≡◌, refl, Bool, true, false, Option, none, some, List, [], ◌∷◌, arith, ◌==◌,
  if◌then◌else◌, length,
}

pub data Kind : Type 0 where
  grp req : Kind

abbrev pub same_kind : Kind → Kind → Bool
same_kind grp grp = true
same_kind req req = true
same_kind _ _ = false

-- `ptr` is `res->ptr`, the handle.
pub record Resource : Type 0 where
  pub ptr : Option ℕ
  pub kind : Kind

unfoldable pub lookup : ℕ → List (ℕ × Resource) → Option Resource
lookup id [] = none
lookup id ((k, res) ∷ rs) = if k == id then some res else lookup id rs

-- `res->ptr = NULL`
unfoldable pub clear : ℕ → List (ℕ × Resource) → List (ℕ × Resource)
clear id [] = []
clear id ((k, res) ∷ rs) =
    if k == id then (k, record res { ptr = none }) ∷ rs else (k, res) ∷ clear id rs

abbrev pub points : ℕ → Option ℕ → ℕ
points a none = 0
points a (some b) = if b == a then 1 else 0

-- How many resources hold the handle at `a`.
unfoldable pub held : ℕ → List (ℕ × Resource) → ℕ
held a [] = 0
held a ((k, res) ∷ rs) = points a res.ptr + held a rs

pub held-le-length : (a : ℕ) (rs : List (ℕ × Resource)) → held a rs ≤ length rs
unfolding held
held-le-length a [] = omega arith
held-le-length a ((k, res) ∷ rs) = ground (arith, held-le-length a rs)

abbrev pub ptr_of : Option Resource → Option ℕ
ptr_of none = none
ptr_of (some res) = res.ptr

pub length-clear : (id : ℕ) (rs : List (ℕ × Resource)) → length (clear id rs) ≡ length rs
unfolding clear
length-clear id [] = refl
length-clear id ((k, x) ∷ rs) = ground (arith, length-clear id rs)

-- To clear a resource that holds nothing changes nothing.
pub clear_same :
    (id : ℕ) (rs : List (ℕ × Resource)) → ptr_of (lookup id rs) ≡ none → clear id rs ≡ rs
unfolding lookup clear
clear_same id [] e = refl
clear_same id ((k, x) ∷ rs) e = ground (arith, clear_same id rs)

pub held-clear :
    (id a b : ℕ) (rs : List (ℕ × Resource))
    → ptr_of (lookup id rs) ≡ some a
    → held b rs ≡ held b (clear id rs) + points b (some a)
unfolding lookup held clear
held-clear id a b [] e = ground arith
held-clear id a b ((k, x) ∷ rs) e = ground (arith, held-clear id a b rs)

-- A resource that holds `a` is counted.
pub held-lookup :
    (id a : ℕ) (rs : List (ℕ × Resource)) → ptr_of (lookup id rs) ≡ some a → 1 ≤ held a rs
unfolding lookup held
held-lookup id a [] e = ground arith
held-lookup id a ((k, x) ∷ rs) e = ground (arith, held-lookup id a rs)

pub lookup-clear :
    (id k : ℕ) (rs : List (ℕ × Resource))
    → ptr_of (lookup k (clear id rs)) ≡ (if id == k then none else ptr_of (lookup k rs))
unfolding lookup clear
lookup-clear id k [] = ground arith
lookup-clear id k ((j, x) ∷ rs) = ground (arith, lookup-clear id k rs)
