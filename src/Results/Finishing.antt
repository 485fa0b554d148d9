-- ===== src/Results/Finishing.antt =====
-- A request that is done, with PHP code that leaves the state as it finds it: libeio calls the finish
-- function and then the destroy function.
use pecl_eio.Base.{
  ℕ, ◌≤◌, ◌≡◌, ◌≢◌, refl, Bool, true, false, Option, none, some, arith, ◌==◌, if◌then◌else◌, ◌>>=◌,
  inl, inr, ◌⊎◌, Bool-cases, is_some,
}
use pecl_eio.Base.Int.{ℤ}
use pecl_eio.Base.Returns
use pecl_eio.Base.Returns.{Returns, returns}
use pecl_eio.Request.{EioReq, content, Frees}
use pecl_eio.Zend.{EioCb, cb, Php}
use pecl_eio.Handles.{target, call_destroy}
use pecl_eio.Handles.Inv.{Inv, Few}
use pecl_eio.Handles.Destroying.{call_destroy-Destroyed, without}
use pecl_eio.World.{World, Env, with_store}
use pecl_eio.World.Submission.{IsReady}
use pecl_eio.Results.{Buffers, Value, result_value, Args, User, res_cb}
use pecl_eio.Results.Release.{Freed, cb_refs, touches}
use pecl_eio.Results.Completion.{res_cb-Completed, res_cb-quiet}

-- `req->destroy(req)`
abbrev pub destroyed : Env → ℕ → World → Option World
destroyed env r w = call_destroy env.lib r w.store >>= λ s. some (with_store w s)

-- What is left of the request at `r`.
pub record Finished (P : Php → Php → Type 0) (w : World) (r : ℕ) (w' : World) : Type 0 where
  pub released : P w.php w'.php
  pub inv : Inv w'.store
  pub gone :
      (k : ℕ) → content (w'.store.reqs k) ≡ (if r == k then none else content (w.store.reqs k))
  pub forgotten : (k : ℕ) → target w'.store k ≢ some r
  pub others : (k : ℕ) → k ≢ w.store.next_id → target w'.store k ≡ without r (target w.store k)

-- The state between the two calls.
pub record Between (P : Php → Php → Type 0) (w : World) (r : ℕ) (w' : World) : Type 0 where
  pub released : P w.php w'.php
  pub inv : Inv w'.store
  pub few : Few w'.store
  pub others : (k : ℕ) → k ≢ w.store.next_id → target w'.store k ≡ target w.store k
  pub still : is_some (w'.store.reqs r) ≡ true
  pub same_reqs : (k : ℕ) → k ≢ r → content (w'.store.reqs k) ≡ content (w.store.reqs k)

without_self : (r : ℕ) (o : Option ℕ) → without r o ≢ some r
without_self r none e = cc
without_self r (some k) e = ground arith

get_some : (o : Option EioReq) → is_some o ≡ true → (p : EioReq) × (o ≡ some p)
get_some none e = absurd (ground arith)
get_some (some p) e = (p, refl)

module _ (env : Env) (f : Frees env.lib) where
  pub destroyed-Finished :
      (P : Php → Php → Type 0) (w w' : World) (r : ℕ)
      → Between P w r w'
      → Returns (Finished P w r) (destroyed env r w')
  destroyed-Finished P w w' r d =
      let (p, still) = get_some (w'.store.reqs r) d.still in
      Returns.bind (call_destroy-Destroyed env.lib f w'.store d.inv d.few r p still) λ s e.
        returns (record {
          released = d.released;
          inv = e.inv;
          gone = λ k. ground (arith, e.freed k, d.same_reqs k);
          forgotten = λ k h. without_self r (target w'.store k) (ground (arith, e.forgotten k));
          others = λ k ne. ground (arith, e.forgotten k, d.others k ne);
        })

  module _ (cloexec : ℤ → Bool) (b : Buffers) (user : User) (kept : Bool) where
    res_cb-Between :
        (w : World) (r a : ℕ) (c : EioCb) (q : EioReq) (v : Value)
        → IsReady env w
        → w.store.reqs r ≡ some q
        → q.cb_data ≡ some a
        → w.php.blocks a ≡ some (cb c)
        → ((i : ℕ) → cb_refs i c ≤ w.php.objs i)
        → touches q.type ≡ false
        → result_value q b ≡ some v
        → ((x : Args) (u : World) → user x u ≡ some (kept, u))
        → Returns (Between (Freed a c) w r) (res_cb env cloexec b user r w)
    res_cb-Between w r a c q v ready live data_of is counted quiet value polite =
        elim (Bool-cases q.cancelled) [
          | inl e ↦ unseen (inl e)
          | inr e ↦ by_func c.func.func_ptr refl e
        ]
      where
        unseen :
            (q.cancelled ≡ true) ⊎ (c.func.func_ptr ≡ none)
            → Returns (Between (Freed a c) w r) (res_cb env cloexec b user r w)
        unseen why =
            Returns.mono
              (res_cb-quiet env cloexec b user kept w r a c q live data_of is counted why)
              λ w' (freed, same). record {
                released = freed;
                inv = rw same ready.inv;
                few = rw same (ground (arith, ready.few));
                others = λ k ne. rw same refl;
                still = rw (same, live) refl;
                same_reqs = λ k ne. rw same refl;
              }

        by_func :
            (o : Option ℕ)
            → c.func.func_ptr ≡ o
            → q.cancelled ≡ false
            → Returns (Between (Freed a c) w r) (res_cb env cloexec b user r w)
        by_func none i e = unseen (inr i)
        by_func (some g) i e =
            Returns.mono
              (res_cb-Completed env cloexec b user kept w r a g c q v ready live data_of e is i
                counted quiet value polite)
              λ w' d. record {
                released = d.freed;
                inv = d.inv;
                few = ground (arith, d.same_length, ready.few);
                others = λ k ne. ground (arith, d.targets k);
                still = ground (arith, d.same_reqs r);
                same_reqs = λ k ne. d.same_reqs k;
              }

    -- The finish function, on each of its paths, and the destroy function.
    pub finish-Finished :
        (w : World) (r a : ℕ) (c : EioCb) (q : EioReq) (v : Value)
        → IsReady env w
        → w.store.reqs r ≡ some q
        → q.cb_data ≡ some a
        → w.php.blocks a ≡ some (cb c)
        → ((i : ℕ) → cb_refs i c ≤ w.php.objs i)
        → touches q.type ≡ false
        → result_value q b ≡ some v
        → ((x : Args) (u : World) → user x u ≡ some (kept, u))
        → Returns (Finished (Freed a c) w r) (res_cb env cloexec b user r w >>= destroyed env r)
    finish-Finished w r a c q v ready live data_of is counted quiet value polite =
        Returns.bind (res_cb-Between w r a c q v ready live data_of is counted quiet value polite)
          λ w' d. destroyed-Finished (Freed a c) w w' r d
