-- ===== src/Lifecycle/Leaks.antt =====
-- At the end of a PHP request and of the module, no handle is left.
use pecl_eio.Base.{
  ℕ, ◌+◌, ◌<◌, ◌≡◌, refl, false, Option, none, some, List, [], ◌∷◌, arith, ◌==◌, ◌>>=◌, ◌∙◌, ap,
}
use pecl_eio.Base.Returns
use pecl_eio.Base.Returns.{Returns, returns}
use pecl_eio.Request.{Libeio, Frees}
use pecl_eio.Handles.{Store}
use pecl_eio.Handles.Resources.{Resource, clear, held}
use pecl_eio.Handles.Inv.{req_of}
use pecl_eio.Handles.Releasing.{handle_dtor-Released}
use pecl_eio.Handles.Numbering.{Descending, IsNumbered, Reach-IsNumbered}
use pecl_eio.Handles.Steps.{IsSafe, Reach, Reach-IsSafe}
use pecl_eio.Lifecycle.{drop_all, close_handles}
use pecl_eio.Lifecycle.Shutdown.{Closed, close_handles-Closed}

-- What the list of resources is after all of `ids` are dropped.
abbrev clear_all : List (ℕ × Resource) → List (ℕ × Resource) → List (ℕ × Resource)
clear_all [] rs = rs
clear_all ((id, res) ∷ ids) rs = clear_all ids (clear id rs)

drop_all-IsSafe :
    (ids : List (ℕ × Resource)) (s : Store)
    → IsSafe s
    → Returns (λ t. IsSafe t × (t.resources ≡ clear_all ids s.resources)) (drop_all ids s)
unfolding drop_all
drop_all-IsSafe [] s v = returns (v, refl)
drop_all-IsSafe ((id, res) ∷ ids) s v = Returns.bind (handle_dtor-Released s v.inv v.few id) λ t d.
    Returns.mono
      (drop_all-IsSafe ids t (record { inv = d.inv; few = ground (arith, d.same_length) }))
      λ u e. (e.0, e.1 ∙ ap (clear_all ids) d.resources)

-- Smaller ids do not reach the head of the list.
clear_all-cons :
    (k : ℕ) (res : Resource) (ids rs : List (ℕ × Resource)) (n : ℕ)
    → n < k + 1
    → Descending n ids
    → clear_all ids ((k, res) ∷ rs) ≡ (k, res) ∷ clear_all ids rs
unfolding clear
clear_all-cons k res [] rs n l d = refl
clear_all-cons k res ((id, x) ∷ ids) rs n l d =
    let differs : (k == id) ≡ false = ground arith in
    rw differs (clear_all-cons k res ids (clear id rs) id (omega arith) d.1)

held-clear_all :
    (a n : ℕ) (rs : List (ℕ × Resource)) → Descending n rs → held a (clear_all rs rs) ≡ 0
unfolding held clear
held-clear_all a n [] d = refl
held-clear_all a n ((k, res) ∷ rs) d = ground (
  arith,
  held-clear_all a k rs,
  clear_all-cons k (record res { ptr = none }) rs rs k (omega arith) d.1,
)

-- A closed store in which no resource holds a handle has no handle.
no_handle :
    (s t : Store) → Closed s t → ((a : ℕ) → held a t.resources ≡ 0) → (a : ℕ) → t.handles a ≡ none
no_handle s t c none_held a = by_req (req_of (t.handles a)) refl
  where
    by_req : (o : Option ℕ) → req_of (t.handles a) ≡ o → t.handles a ≡ none
    by_req none e = ground (arith, c.inv.counted a, c.inv.alive a, none_held a)
    by_req (some r) e = ground (arith, c.inv.owner r a, c.inv.hooked r, c.unhooked r)

-- From a safe store whose resource ids fall along the list, with a destroy function of libeio that
-- frees exactly its request: after any sequence of steps, when PHP destroys every resource and the
-- module then shuts its handles down, nothing faults and no handle is left in memory, also where
-- requests are still in flight.
pub close_handles-no_leak :
    (lib : Libeio) (f : Frees lib) (s t : Store)
    → IsSafe s
    → IsNumbered s
    → Reach lib s t
    → Returns (λ u. (a : ℕ) → u.handles a ≡ none) (drop_all t.resources t >>= close_handles)
close_handles-no_leak lib f s t v n r =
    let d = Reach-IsNumbered lib f v n r in
    Returns.bind (drop_all-IsSafe t.resources t (Reach-IsSafe lib f v r)) λ u (safe, cleared).
      Returns.mono (close_handles-Closed u safe) λ w c.
        no_handle u w c
          λ a. ground (arith, c.same_resources, held-clear_all a t.next_id t.resources d)
