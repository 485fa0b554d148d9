-- ===== src/Ledger/Entries.antt =====
-- The entries of the ledger: an object is added where it is made, and removed where it is freed.
use pecl_eio.Base.{
  ℕ, ◌+◌, ◌≤◌, ◌≡◌, refl, none, some, [], ◌∷◌, List, subst, sym, ◌∙◌, arith, ◌==◌, if◌then◌else◌,
  Bool-cases, inl, inr,
}
use pecl_eio.Zend.{EioCb, cb, Php}
use pecl_eio.Results.Release.{cb_refs, Freed}
use pecl_eio.Callbacks.Storing.{Stored}
use mathlib.Core.Option.{some-injective}
use pecl_eio.Ledger.{
  more, Entry, Has, Apart, Held, memory, Ledger, held, obj_at, addr_of, remove, Distinct, Covers,
}

-- The request `r` carries the object `c` at `a`, and what is left when its entry is removed.
pub record Listed (l : Ledger) (r a : ℕ) (c : EioCb) : Type 0 where
  pub at : addr_of r l ≡ some a
  pub is : obj_at a l ≡ some c
  pub counted : (i : ℕ) → held i l ≡ held i (remove r l) + cb_refs i c
  pub left : (k : ℕ) → obj_at k (remove r l) ≡ (if a == k then none else obj_at k l)
  pub others : (k : ℕ) → addr_of k (remove r l) ≡ (if r == k then none else addr_of k l)
  pub distinct : Distinct (remove r l)

pub listed :
    (l : Ledger) (r a : ℕ) → Distinct l → addr_of r l ≡ some a → (c : EioCb) × Listed l r a c
listed [] r a d e = cc
listed (x ∷ l) r a (dr, da, d) e = elim (Bool-cases (x.req == r)) [
  | inl h ↦ (
    x.obj,
    record {
      at = e;
      is = ground arith;
      counted = λ i. ground arith;
      left = λ k. ground arith;
      others = λ k. ground arith;
      distinct = rw h d;
    },
  )
  | inr h ↦
      let (c, f) = listed l r a d (ground arith) in
      (
        c,
        record {
          at = e;
          is = ground (arith, f.is);
          counted = λ i. ground (arith, f.counted i);
          left = λ k. ground (arith, f.left k, f.is);
          others = λ k. ground (arith, f.others k);
          distinct = rw h (ground (arith, f.others x.req), ground (arith, f.left x.at), f.distinct);
        },
      )
]

-- A known entry of the ledger.
pub known_entry :
    (l : Ledger) (r a : ℕ) (c : EioCb)
    → Distinct l
    → addr_of r l ≡ some a
    → obj_at a l ≡ some c
    → Listed l r a c
known_entry l r a c d at is =
    let (c', f) = listed l r a d at in subst (Listed l r a) (some-injective _ _ (sym f.is ∙ is)) f

-- To remove the entry of one request leaves the entries of the others.
pub remove-Has :
    (l : Ledger) (r a : ℕ) (c : EioCb)
    → Listed l r a c
    → (g : List Entry) → Apart g r
    → Has g l
    → Has g (remove r l)
remove-Has l r a c f [] apart h = tt
remove-Has l r a c f (e ∷ g) (ne, apart) (at, is, h) =
    let still : addr_of e.req (remove r l) ≡ some e.at = ground (arith, f.others e.req) in
    let (c', k) = listed (remove r l) e.req e.at f.distinct still in
    (still, ground (arith, f.left e.at, k.is), remove-Has l r a c f g apart h)

-- An object that was made, with an entry for the request that carries it.
pub Stored-Covers :
    (u : Held) (l : Ledger) (p p' : Php) (r a : ℕ) (s : Stored p a p')
    → Covers u l (memory p)
    → p.blocks a ≡ none
    → addr_of r l ≡ none
    → Covers u (record { req = r; at = a; obj = s.made } ∷ l) (memory p')
Stored-Covers u l p p' r a s v unused new =
    let fresh : obj_at a l ≡ none = ground (arith, v.blocks a) in
    let free : u.blocks a ≡ none = ground (arith, v.blocks a) in
    record {
      objs = λ i. omega (arith, s.objs i, v.objs i);
      blocks = λ k. ground (arith, s.blocks k, v.blocks k);
      distinct = (new, fresh, v.distinct);
      unused = λ k e. ground (arith, v.unused k);
    }

pub more_none : (u : Held) (l : Ledger) (p : Held) → Covers u l p → Covers (more (λ i. 0) u) l p
more_none u l p v = record {
  objs = λ i. omega (arith, v.objs i);
  blocks = v.blocks;
  distinct = v.distinct;
  unused = v.unused;
}

-- The object of `r` was freed, and `n i` references to each object `i` beside; its entry goes.
pub freed-Covers :
    (u : Held) (l : Ledger) (p p' : Php) (r a : ℕ) (c : EioCb) (n : ℕ → ℕ)
    → Covers (more n u) l (memory p)
    → Listed l r a c
    → ((i : ℕ) → p.objs i ≡ p'.objs i + (cb_refs i c + n i))
    → ((k : ℕ) → p'.blocks k ≡ (if a == k then none else p.blocks k))
    → Covers u (remove r l) (memory p')
freed-Covers u l p p' r a c n v f objs blocks =
    let free : u.blocks a ≡ none = v.unused a (ground (arith, f.is)) in
    record {
      objs = λ i. omega (arith, objs i, v.objs i, f.counted i);
      blocks = λ k. ground (arith, blocks k, v.blocks k, f.left k);
      distinct = f.distinct;
      unused = λ k e. ground (arith, v.unused k, f.left k);
    }

pub Freed-Covers :
    (u : Held) (l : Ledger) (p p' : Php) (r a : ℕ) (c : EioCb)
    → Covers u l (memory p)
    → Listed l r a c
    → Freed a c p p'
    → Covers u (remove r l) (memory p')
Freed-Covers u l p p' r a c v f g =
    freed-Covers u l p p' r a c (λ i. 0) (more_none u l (memory p) v) f
      (λ i. omega (arith, g.objs i)) g.blocks

-- The object that a request carries is in its block, and its references are counted.
pub Covers-block :
    (u : Held) (l : Ledger) (p : Php) (r a : ℕ) (c : EioCb)
    → Covers u l (memory p)
    → Listed l r a c
    → p.blocks a ≡ some (cb c)
Covers-block u l p r a c v f = ground (arith, v.blocks a, f.is)

pub Covers-counted :
    (u : Held) (l : Ledger) (p : Php) (r a : ℕ) (c : EioCb)
    → Covers u l (memory p)
    → Listed l r a c
    → (i : ℕ) → cb_refs i c ≤ p.objs i
Covers-counted u l p r a c v f i = omega (arith, v.objs i, f.counted i)

-- Where no request carries an object, the ledger is empty, and PHP code holds all there is.
pub none-Empty : (l : Ledger) → ((r : ℕ) → addr_of r l ≡ none) → l ≡ []
none-Empty [] h = refl
none-Empty (e ∷ l) h = absurd (ground (arith, h e.req))
