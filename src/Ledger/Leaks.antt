-- ===== src/Ledger/Leaks.antt =====
-- No request leaks and none is ended twice, however many requests there are at once.
use pecl_eio.Base.{some, ℕ, Bool, ◌≡◌, refl, none, [], arith, ◌∙◌}
use pecl_eio.Base.Int.{ℤ}
use pecl_eio.Base.Returns
use pecl_eio.Base.Returns.{Returns, result}
use pecl_eio.Request.{Frees}
use pecl_eio.Handles.Steps.{start, start-IsSafe}
use pecl_eio.World.{World, Env, IsEnv}
use pecl_eio.Results.Cancelled.{CancelRuns}
use pecl_eio.Ledger.{Held, block_in, Ledger, Owned, memory, data_in, held, obj_at}
use pecl_eio.Ledger.Entries.{none-Empty}
use pecl_eio.Ledger.Groups.{GroupRuns}
use pecl_eio.Ledger.Steps.{Op, exec, Fits, Keeping, Habit, exec-Keeping}

-- Where no request carries a callback object, PHP code holds all the memory.
pub bare-All :
    (u : Held) (w : World)
    → Owned [] u w
    → ((r : ℕ) → data_in (w.store.reqs r) ≡ none)
    → ((i : ℕ) → w.php.objs i ≡ u.objs i) × ((k : ℕ) → w.php.blocks k ≡ u.blocks k)
bare-All u w (l, has, v) bare =
    let empty : l ≡ [] = none-Empty l (λ r. ground (arith, v.carries.carried r, bare r)) in
    (
      λ i. omega (arith, v.covers.objs i, at_objs l empty i),
      λ k. v.covers.blocks k ∙ at_blocks l empty k,
    )
  where
    at_objs : (l : Ledger) → l ≡ [] → (i : ℕ) → held i l ≡ 0
    at_objs l e i = rw e refl

    at_blocks : (l : Ledger) → l ≡ [] → (k : ℕ) → block_in (obj_at k l) (u.blocks k) ≡ u.blocks k
    at_blocks l e k = rw e refl

-- Before the first request, PHP code holds all the memory.
pub start-Owned : (w : World) → w.store ≡ start (λ r. none) → Owned [] (memory w.php) w
start-Owned w e = (
  [],
  tt,
  rw e (record {
    inv = (start-IsSafe (λ _. none) (λ r. refl) (λ r. refl)).inv;
    few = omega arith;
    ready = refl;
    covers = record {
      objs = λ i. omega arith;
      blocks = λ k. refl;
      distinct = tt;
      unused = λ k h. cc;
    };
    carries = record { carried = λ r. refl; plain = λ r. refl };
  }),
)

module _ (env : Env) (cloexec : ℤ → Bool) (does : Held → Held → Type 0) where
  -- The worlds that are reached from `w`, with no callback being called.
  pub data Reach (w : World) : World → Type 0 where
    here : Reach w w
    next :
        {w1 w2 : World} (op : Op)
        → Reach w w1
        → Fits env cloexec does [] op w1
        → exec env cloexec op w1 ≡ some w2
        → Reach w w2

  module _ (is : IsEnv env) (f : Frees env.lib) (cancels : CancelRuns env) (runs : GroupRuns env)
      (habit : Habit does) where
    reached : (u : Held) (w w' : World) → Owned [] u w → Reach w w' → Keeping [] does u w'
    reached u w w' own here = (u, habit.nothing u, own)
    reached u w w' own (next op before fits e) =
        let (v, did, own1) = reached u w _ own before in
        let (v', did', own') =
          result (exec-Keeping env cloexec does is f cancels runs habit [] op v _ fits own1) e in
        (v', habit.both u v v' did did', own')

    -- With allocators that return unused memory, a destroy function of libeio that frees exactly
    -- its request, and functions of libeio for cancellations and groups that keep types, callback
    -- objects and destroy functions: from a world where a ledger accounts for every reference and
    -- every block that PHP code does not hold, by one entry for each live request that carries a
    -- callback object, take any sequence of steps, in any order and on any number of requests:
    -- functions that make requests (all but `eio_custom` and `eio_write`), `eio_cancel`,
    -- `eio_get_last_error` and the functions on groups, on any resource, destructors of resources,
    -- `php_eio_res_cb` followed by the destroy function, the destroy function of a request without
    -- a callback object, and the work of libeio and of PHP code. In every world that is reached,
    -- and in which no request carries a callback object, every reference and every block is one
    -- that PHP code holds itself, after what it has done to its own by its habit. PHP code in a
    -- callback keeps to the habit and leaves the object of its request in place.
    pub Reach-no_leak :
        (u : Held) (w w' : World)
        → Owned [] u w
        → Reach w w'
        → ((r : ℕ) → data_in (w'.store.reqs r) ≡ none)
        → (u' : Held) × does u u'
          × ((i : ℕ) → w'.php.objs i ≡ u'.objs i)
          × ((k : ℕ) → w'.php.blocks k ≡ u'.blocks k)
    Reach-no_leak u w w' own reach bare =
        let (u', did, own') = reached u w w' own reach in
        let (objs, blocks) = bare-All u' w' own' bare in (u', did, objs, blocks)
