-- ===== src/Ledger/Steps.antt =====
-- Any number of requests at once: what PHP code, libeio and the extension do, in any order.
use pecl_eio.Base.{
  List, [], ◌∷◌, ℕ, ◌+◌, ◌≡◌, Bool, true, false, Option, none, some, arith, ◌>>=◌, is_some, ◌⊎◌,
}
use pecl_eio.Base.Int.{ℤ}
use pecl_eio.Base.Returns
use pecl_eio.Base.Returns.{Returns, returns, result}
use pecl_eio.Request.{EioReq, Reqs, Frees}
use pecl_eio.Zend.{Php}
use pecl_eio.Handles.{handle_dtor, target}
use pecl_eio.World.{World, Env, IsEnv, with_php, with_store}
use pecl_eio.World.Submission.{IsReady}
use pecl_eio.Api.Running.{Api, run}
use pecl_eio.Api.Closing.{is_eio_custom}
use pecl_eio.Api.Control.{
  eio_cancel, eio_get_last_error, eio_grp_cancel, eio_grp_add, eio_grp_limit,
}
use pecl_eio.Results.{Buffers, Value, result_value, User, res_cb}
use pecl_eio.Results.Finishing.{destroyed}
use pecl_eio.Results.Life.{Ran, after_run}
use pecl_eio.Results.Cancelled.{CancelRuns}
use pecl_eio.Ledger.{calling, Entry, Apart, Held, Ledger, Room, Covers, Owned, memory, data_in}
use pecl_eio.Ledger.Calls.{run-Keeps}
use pecl_eio.Ledger.Control.{ran-Ledgered, dropped-Owned, destroyed-Owned, eio_cancel-Owned}
use pecl_eio.Ledger.Groups.{
  GroupRuns, eio_get_last_error-Owned, eio_grp_cancel-Owned, eio_grp_add-Owned, eio_grp_limit-Owned,
}
use pecl_eio.Ledger.Calling.{Minds}
use pecl_eio.Ledger.Finishing.{finish-Owned}

-- PHP code calls a function of the extension that makes a request, one that takes resources, or
-- the destructor of a resource, or works on memory of its own. libeio runs requests, ends one that carries no callback object, or finishes
-- one and ends it.
pub data Op : Type 0 where
  call : Api → Op
  cancel drop last_error grp_cancel : (id : ℕ) → Op
  grp_add : (zgrp zreq : ℕ) → Op
  grp_limit : (id : ℕ) → (limit : ℤ) → Op
  work : Php → Op
  ran : Reqs → Op
  discard : (r : ℕ) → Op
  finish : Buffers → User → (r : ℕ) → Op

unfoldable pub exec : Env → (ℤ → Bool) → Op → World → Option World
exec env cloexec (call c) w = run env c w >>= λ (ret, w'). some w'
exec env cloexec (cancel id) w = eio_cancel env id w >>= λ (ret, w'). some w'
exec env cloexec (last_error id) w = eio_get_last_error env id w >>= λ (ret, w'). some w'
exec env cloexec (grp_cancel id) w = eio_grp_cancel env id w >>= λ (ret, w'). some w'
exec env cloexec (grp_add zgrp zreq) w = eio_grp_add env zgrp zreq w >>= λ (ret, w'). some w'
exec env cloexec (grp_limit id limit) w = eio_grp_limit env id limit w >>= λ (ret, w'). some w'
exec env cloexec (drop id) w = handle_dtor id w.store >>= λ s. some (with_store w s)
exec env cloexec (work p) w = some (with_php w p)
exec env cloexec (ran m) w = some (after_run w m)
exec env cloexec (discard r) w = destroyed env r w
exec env cloexec (finish b user r) w = res_cb env cloexec b user r w >>= destroyed env r

-- PHP code changes `p` to `p'`, and what it holds itself from `u` to `u'`: it takes and gives back
-- references, and writes its own blocks.
pub record Works (u u' : Held) (p p' : Php) : Type 0 where
  pub objs : (i : ℕ) → p'.objs i + u.objs i ≡ p.objs i + u'.objs i
  pub blocks :
      (k : ℕ)
      → ((p'.blocks k ≡ p.blocks k) × (u'.blocks k ≡ u.blocks k))
        ⊎ ((p.blocks k ≡ u.blocks k) × (p'.blocks k ≡ u'.blocks k))

-- What PHP code may do to what it holds, in one step or in many.
pub record Habit (does : Held → Held → Type 0) : Type 0 where
  pub nothing : (u : Held) → does u u
  pub both : (u v w : Held) → does u v → does v w → does u w

Works-Covers :
    (u u' : Held) (l : Ledger) (p p' : Php)
    → Works u u' p p'
    → Covers u l (memory p)
    → Covers u' l (memory p')
Works-Covers u u' l p p' k v = record {
  objs = λ i. omega (arith, k.objs i, v.objs i);
  blocks = λ i. ground (arith, k.blocks i, v.blocks i, v.unused i);
  distinct = v.distinct;
  unused = λ i e. ground (arith, k.blocks i, v.blocks i, v.unused i);
}

-- The references of the parameters `$data` are not touched.
Works-calling :
    (g : List Entry) (u u' : Held) (p p' : Php)
    → Works u u' p p'
    → Works (calling g u) (calling g u') p p'
Works-calling [] u u' p p' k = k
Works-calling (e ∷ g) u u' p p' k =
    let rest = Works-calling g u u' p p' k in
    record { objs = λ i. omega (arith, rest.objs i); blocks = rest.blocks }

-- What PHP code holds in the world `w`, if it held `u` before.
abbrev pub Keeping : List Entry → (Held → Held → Type 0) → Held → World → Type 0
Keeping g does u w = (u' : Held) × does u u' × Owned g u' w

module _ (env : Env) (cloexec : ℤ → Bool) (does : Held → Held → Type 0) where
  -- When a step may be taken, while the callbacks of the requests of `g` are being called: these
  -- requests are neither cancelled nor finished once more.
  abbrev pub Fits : List Entry → Op → World → Type 0
  Fits g (call c) w = (is_eio_custom c ≡ false) × Room env w.store
  Fits g (cancel id) w = (r : ℕ) → target w.store id ≡ some r → Apart g r
  Fits g (drop id) w = Unit
  Fits g (last_error id) w = Unit
  Fits g (grp_cancel id) w = Unit
  Fits g (grp_add zgrp zreq) w = Unit
  Fits g (grp_limit id limit) w = Unit
  Fits g (work p) w = (u : Held) → Owned g u w → (u' : Held) × does u u' × Works u u' w.php p
  Fits g (ran m) w = Ran w.store.reqs m
  Fits g (discard r) w = (is_some (w.store.reqs r) ≡ true) × (data_in (w.store.reqs r) ≡ none)
  Fits g (finish b user r) w =
      IsReady env w
      × Apart g r
      × ((q : EioReq) × (v : Value) × (w.store.reqs r ≡ some q) × (result_value q b ≡ some v))
      × Minds env does user g r w

  module _ (is : IsEnv env) (f : Frees env.lib) (cancels : CancelRuns env) (runs : GroupRuns env)
      (habit : Habit does) where
    pub exec-Keeping :
        (g : List Entry) (op : Op) (u : Held) (w : World)
        → Fits g op w
        → Owned g u w
        → Returns (Keeping g does u) (exec env cloexec op w)
    unfolding exec
    exec-Keeping g (call c) u w (other, room) own =
        Returns.bind (run-Keeps env is c other w room g u own)
          λ out v. returns (u, habit.nothing u, v)
    exec-Keeping g (cancel id) u w apart own =
        Returns.bind (eio_cancel-Owned env cancels g u w id apart own)
          λ out (v, empty). returns (u, habit.nothing u, v)
    exec-Keeping g (drop id) u w fits own =
        Returns.bind (dropped-Owned g u w id own) λ s v. returns (u, habit.nothing u, v)
    exec-Keeping g (last_error id) u w fits own =
        Returns.bind (eio_get_last_error-Owned g u env id w own)
          λ out v. returns (u, habit.nothing u, v)
    exec-Keeping g (grp_cancel id) u w fits own =
        Returns.bind (eio_grp_cancel-Owned g u env runs id w own)
          λ out v. returns (u, habit.nothing u, v)
    exec-Keeping g (grp_add zgrp zreq) u w fits own =
        Returns.bind (eio_grp_add-Owned g u env runs zgrp zreq w own)
          λ out v. returns (u, habit.nothing u, v)
    exec-Keeping g (grp_limit id limit) u w fits own =
        Returns.bind (eio_grp_limit-Owned g u env runs id limit w own)
          λ out v. returns (u, habit.nothing u, v)
    exec-Keeping g (work p) u w fits (l, has, v) =
        let (u', did, k) = fits u (l, has, v) in
        returns (
          u',
          did,
          (
            l,
            has,
            record {
              inv = v.inv;
              few = v.few;
              ready = v.ready;
              covers =
                  Works-Covers (calling g u) (calling g u') l w.php p
                    (Works-calling g u u' w.php p k) v.covers;
              carries = v.carries;
            },
          ),
        )
    exec-Keeping g (ran m) u w fits (l, has, v) =
        returns (
          u,
          habit.nothing u,
          (l, has, ran-Ledgered (calling g u) l w.store (memory w.php) m fits v),
        )
    exec-Keeping g (discard r) u w (live, bare) (l, has, v) =
        Returns.mono
          (destroyed-Owned env f g u w r (record {
            inv = v.inv;
            few = v.few;
            ready = v.ready;
            ledger = l;
            has = has;
            covers = v.covers;
            addrs = λ k. ground (arith, v.carries.carried k);
            plain = v.carries.plain;
            still = live;
          }))
          λ w' (own, gone). (u, habit.nothing u, own)
    exec-Keeping g (finish b user r) u w (ready, apart, (q, v, live, value), minds) own =
        Returns.mono
          (finish-Owned env cloexec b user does f g u w r q v ready apart live value minds own)
          λ w' (u', did, own', gone). (u', did, own')
