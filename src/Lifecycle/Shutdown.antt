-- ===== src/Lifecycle/Shutdown.antt =====
-- What the end of the module and a fork leave behind.
use pecl_eio.Base.{
  ℕ, ◌≡◌, ◌⊎◌, inl, inr, refl, true, false, Option, none, some, [], arith, ◌==◌, if◌then◌else◌,
  is_some, Bool-cases,
}
use pecl_eio.Base.Returns
use pecl_eio.Base.Returns.{Returns, returns}
use pecl_eio.Request.{hooked_in}
use pecl_eio.Process.{Process, pipe_destroy}
use pecl_eio.Process.Init.{Initialized, init-Initialized, is_open, pipe_destroy_lem}
use pecl_eio.Handles.{Store, target}
use pecl_eio.Handles.Table.{find}
use pecl_eio.Handles.Inv.{Inv, target-IsSome}
use pecl_eio.Handles.Resetting.{Reset, handles_reset-Reset}
use pecl_eio.Handles.Steps.{IsSafe}
use pecl_eio.World.{World, Env}
use pecl_eio.Lifecycle.{close_handles, mshutdown, atfork_child}

-- The handles are closed: in order, with no hook in a request and no request behind a resource.
pub record Closed (s s' : Store) : Type 0 where
  pub inv : Inv s'
  pub targets : (id : ℕ) → target s' id ≡ none
  pub unhooked : (r : ℕ) → hooked_in (s'.reqs r) ≡ false
  pub same_reqs : (k : ℕ) → is_some (s'.reqs k) ≡ is_some (s.reqs k)
  pub same_resources : s'.resources ≡ s.resources
  pub not_ready : s'.ready ≡ false

none_found : (o : Option ℕ) → is_some o ≡ false → o ≡ none
none_found o h = ground arith

module _ (s : Store) where
  closed-Inv : (s' : Store) → Reset s s' → Inv (record s' { ready = false; table = [] })
  unfolding find
  closed-Inv s' d =
      let v = d.inv in
      record {
        counted = v.counted;
        alive = v.alive;
        linked = λ r a e. cc;
        owner = λ r a e. ground (arith, v.owner r a, v.hooked r, d.unhooked r);
        hooked = d.unhooked;
        original = v.original;
        callable = v.callable;
        closed = λ r e. refl;
        distinct = tt;
      }

  Reset-Closed : (s' : Store) → Reset s s' → Closed s (record s' { ready = false; table = [] })
  Reset-Closed s' d = record {
    inv = closed-Inv s' d;
    targets = d.targets;
    unhooked = d.unhooked;
    same_reqs = d.same_reqs;
    same_resources = d.same_resources;
    not_ready = refl;
  }

  -- A table that is closed already is left alone.
  shut-Closed : Inv s → s.ready ≡ false → Closed s s
  shut-Closed v e = record {
    inv = v;
    targets =
        λ id. no_target (target s id) (λ k h. ground (arith, target-IsSome s v id k, v.closed k));
    unhooked = λ r. ground (arith, v.hooked r, v.closed r);
    same_reqs = λ k. refl;
    same_resources = refl;
    not_ready = e;
  }
    where
      no_target : (o : Option ℕ) → ((k : ℕ) → o ≡ some k → ⊥) → o ≡ none
      no_target none h = refl
      no_target (some k) h = absurd (h k refl)

  pub close_handles-Closed : IsSafe s → Returns (Closed s) (close_handles s)
  unfolding close_handles
  close_handles-Closed v = elim (Bool-cases s.ready) [
    | inl e ↦
        simp e
          (Returns.bind (handles_reset-Reset s v.inv v.few e) λ s' d. returns (Reset-Closed s' d))
    | inr e ↦ simp e (returns (shut-Closed v.inv e))
  ]

-- Both ends of the pipe are closed, unless there is no pipe.
abbrev pub PipeGone : Process → Process → Type 0
PipeGone p q = (q.len ≡ 0) × ((p.len ≡ 0) ⊎ ((is_open q p.fd0 ≡ false) × (is_open q p.fd1 ≡ false)))

pipe_gone : (p : Process) → PipeGone p (if p.len == 0 then p else pipe_destroy p)
pipe_gone p = ground (arith, pipe_destroy_lem p)

-- In a world whose store is safe, the shutdown of the module does not fault. The handles stay in
-- order, no resource stands for a request, no request has a hook, the requests stay alive, and the
-- table is closed; where there was a pipe, both its ends are closed, and its width is 0.
pub mshutdown-Closed :
    (w : World)
    → IsSafe w.store
    → Returns (λ w'. Closed w.store w'.store × PipeGone w.process w'.process) (mshutdown w)
unfolding mshutdown
mshutdown-Closed w v =
    Returns.bind (close_handles-Closed w.store v) λ s d. returns (d, pipe_gone w.process)

-- In a child process, whose id differs from the one that was stored, with a safe and open store:
-- the handler of the fork does not fault; the handles are reset, so that no resource stands for a
-- request and no request has a hook, and the initialization runs once more: either the id of the
-- child is stored, and there is a new event pipe with both ends open, or exactly one fatal error is
-- reported and the old id stays.
pub atfork_child-Child :
    (env : Env) (w : World)
    → IsSafe w.store
    → w.store.ready ≡ true
    → (w.process.pid == env.os.getpid) ≡ false
    → Returns
        (λ w'. Reset w.store w'.store × Initialized env.os w.process w'.process)
        (atfork_child env w)
unfolding atfork_child
atfork_child-Child env w v ready forked =
    Returns.bind (handles_reset-Reset w.store v.inv v.few ready)
      λ s d. returns (d, init-Initialized env.os w.process (inr forked))
