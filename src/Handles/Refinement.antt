-- ===== src/Handles/Refinement.antt =====
-- The handles implement weak references.
use mathlib.Core.Path.{fun_ext}
use pecl_eio.Base.{ℕ, ◌≡◌, refl, some, List, [], ◌∷◌, arith, ◌==◌, if◌then◌else◌}
use pecl_eio.Base.Returns.{result}
use pecl_eio.Request.{Libeio, Frees}
use pecl_eio.Handles.{Store, fetch_req}
use pecl_eio.Handles.Resources.{Kind, Resource, lookup, clear}
use pecl_eio.Handles.Fetching.{fetch_req-target}
use pecl_eio.Handles.Destroying.{call_destroy-Destroyed}
use pecl_eio.Handles.Registering.{register_resource-Registered}
use pecl_eio.Handles.Releasing.{handle_dtor-Released}
use pecl_eio.Handles.Resetting.{handles_reset-Reset}
use pecl_eio.Handles.Steps
use pecl_eio.Handles.Steps.{
  Step, create, finish, register, drop, fork, Reach, IsSafe, Step-IsSafe, Reach-IsSafe,
}
use pecl_eio.Handles.Weak.{Weak, WeakStep, WeakReach, kind_of, view, get}

Weak-ext :
    {u v : Weak}
    → ((r : ℕ) → u.live r ≡ v.live r)
    → ((id : ℕ) → u.kind id ≡ v.kind id)
    → ((id : ℕ) → u.ref id ≡ v.ref id)
    → u.next ≡ v.next
    → u ≡ v
Weak-ext a b c d =
    λ i. record { live = fun_ext a i; kind = fun_ext b i; ref = fun_ext c i; next = d i }

kind_of-clear :
    (id k : ℕ) (rs : List (ℕ × Resource)) → kind_of (lookup k (clear id rs)) ≡ kind_of (lookup k rs)
unfolding lookup clear
kind_of-clear id k [] = refl
kind_of-clear id k ((j, x) ∷ rs) = ground (arith, kind_of-clear id k rs)

kind_of-cons :
    (id k : ℕ) (res : Resource) (rs : List (ℕ × Resource))
    → kind_of (lookup k ((id, res) ∷ rs))
      ≡ (if id == k then some res.kind else kind_of (lookup k rs))
unfolding lookup
kind_of-cons id k res rs = ground arith

module _ (lib : Libeio) (f : Frees lib) {s s' : Store} where
  -- Every step of the handles is a step of the references.
  Step-WeakStep : Step lib s s' → IsSafe s → WeakStep (view s) (view s')
  Step-WeakStep (create r q free h n e) v =
      WeakStep.make r (ground arith)
        (rw e (Weak-ext (λ k. ground arith) (λ k. refl) (λ k. refl) refl))
  Step-WeakStep (finish r q live e) v =
      let d = result (call_destroy-Destroyed lib f s v.inv v.few r q live) e in
      WeakStep.end_of r (ground arith) (
        Weak-ext (λ k. ground (arith, d.freed k)) (λ k. ground (arith, d.same_resources))
          (λ k. ground (arith, d.forgotten k)) d.same_next)
  Step-WeakStep (register r addr id kind q ready live free room e) v =
      let d = result (register_resource-Registered s v.inv v.few r kind addr q ready live free) e in
      WeakStep.bind r kind (ground arith) (
        Weak-ext (λ k. ground (arith, d.same_reqs k))
          (λ k. ground (arith, d.resources, d.kind_lem, kind_of-cons s.next_id k d.res s.resources))
          (λ k. d.targets k) d.next)
  Step-WeakStep (drop id e) v =
      let d = result (handle_dtor-Released s v.inv v.few id) e in
      WeakStep.drop_ref id (
        Weak-ext (λ k. ground (arith, d.same_reqs))
          (λ k. ground (arith, d.resources, kind_of-clear id k s.resources)) (λ k. d.targets k)
          d.same_next)
  Step-WeakStep (fork ready e) v =
      let d = result (handles_reset-Reset s v.inv v.few ready) e in
      WeakStep.clear_all (
        Weak-ext (λ k. d.same_reqs k) (λ k. ground (arith, d.same_resources)) (λ k. d.targets k)
          d.same_next)

fetch_req-get :
    (s : Store)
    → IsSafe s
    → (id : ℕ) (kind : Kind) → fetch_req id kind s ≡ some (get id kind (view s))
fetch_req-get s v id kind = ground (arith, fetch_req-target s v.inv id kind)

module _ (lib : Libeio) (f : Frees lib) {s : Store} (v : IsSafe s) where
  Reach-WeakReach : {t : Store} → Reach lib s t → WeakReach (view s) (view t)
  Reach-WeakReach Steps.Reach.here = WeakReach.here
  Reach-WeakReach (Steps.Reach.next r st) =
      WeakReach.next (Reach-WeakReach r) (Step-WeakStep lib f st (Reach-IsSafe lib f v r))

  -- From a safe store, and with a destroy function of libeio that frees exactly its request, every
  -- sequence of steps of the handles is a sequence of steps of a table of weak references, in which
  -- the end of a request clears exactly the references to it, a registration binds the next id, the
  -- drop of a resource clears its reference, and a reset clears all; and to fetch a resource in the
  -- store that is reached gives, without a fault, what the table says for its id and kind.
  pub Reach-refines :
      {t : Store}
      → Reach lib s t
      → WeakReach (view s) (view t)
        × ((id : ℕ) (kind : Kind) → fetch_req id kind t ≡ some (get id kind (view t)))
  Reach-refines {t} r = (Reach-WeakReach r, fetch_req-get t (Reach-IsSafe lib f v r))
