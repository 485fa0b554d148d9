-- ===== src/Ledger/Calling.antt =====
-- The callback of a request is called: what PHP code finds, what it has to leave, and what the end
-- of `php_eio_res_cb` gives back.
use pecl_eio.Base.{List, ◌∷◌, ℕ, ◌≡◌, Bool, some, arith, ◌∙◌}
use pecl_eio.Base.Int.{ℤ}
use pecl_eio.Base.Returns
use pecl_eio.Base.Returns.{Returns, returns}
use pecl_eio.Request.{EioReq}
use pecl_eio.Zend.{EioCb, add_ref}
use pecl_eio.Callbacks.Balance.{add_ref-Takes}
use pecl_eio.Handles.{target, register_resource}
use pecl_eio.Handles.Resources.{Kind}
use pecl_eio.Handles.Registering.{register_resource-Registered}
use pecl_eio.World.{World, Env, with_php, with_store}
use pecl_eio.World.Submission.{IsReady}
use pecl_eio.Results.{
  Buffers, Value, result_value, Args, User, data_param, call_back, release_params,
}
use pecl_eio.Results.Release.{refs_in-data_param, drop_req-Dropped, result_effects-Warned}
use pecl_eio.Results.Careful.{release_both}
use pecl_eio.Ledger.{
  calling, data_refs, more, Entry, Has, Apart, Held, Ledger, remove, Ledgered, Owned, memory,
}
use pecl_eio.Ledger.Entries.{known_entry, remove-Has, Listed, freed-Covers, Covers-block}
use pecl_eio.Ledger.Control.{Ending}

-- PHP code runs in the callback of the request at `r`: it holds `u` and the parameter `$data`, and
-- the request still carries its object `c`, which is at `a`. The requests of `g` are in a callback
-- too, in which PHP code made libeio finish this one.
abbrev pub Called : List Entry → Held → (r a : ℕ) → EioCb → World → Type 0
Called g u r a c w = Owned (record { req = r; at = a; obj = c } ∷ g) u w

-- The callback of the request at `r` is called with a new resource, where the finish function is
-- called in the world `w0`: else the requests, handles and resources are as they were.
abbrev pub CalledFrom : Env → ℕ → World → World → Type 0
CalledFrom env r w0 w =
    (id : ℕ) × (register_resource r Kind.req (env.handle_address w0.store.handles) w0.store
      ≡ some (id, w.store))

-- What PHP code does to what it holds itself, where the finish function is called in the world
-- `w0`, in the callbacks of the requests of `g`, and that it leaves the rest to the ledger. It is called with a resource that stands for the
-- request.
pub record Minds (env : Env) (does : Held → Held → Type 0) (user : User) (g : List Entry) (r : ℕ)
    (w0 : World) : Type 0 where
  pub nothing : (u : Held) → does u u
  pub called :
      (x : Args) (w : World) (u : Held) (a : ℕ) (c : EioCb)
      → CalledFrom env r w0 w
      → target w.store x.req ≡ some r
      → Called g u r a c w
      → Returns (λ out. (u' : Held) × does u u' × Called g u' r a c out.1) (user x w)

-- The state after the finish function.
abbrev pub Finishing : (Held → Held → Type 0) → List Entry → Held → ℕ → World → Type 0
Finishing does g u r w = (u' : Held) × does u u' × Ending g u' r w.store (memory w.php)

module _ (env : Env) (cloexec : ℤ → Bool) (b : Buffers) (user : User)
    (does : Held → Held → Type 0) where
  release_params-Ending :
      (g : List Entry) (u : Held) (r a id : ℕ) (c : EioCb) (out : Bool × World)
      → Apart g r
      → Called g u r a c out.1
      → Returns
          (λ w'. Ending g u r w'.store (memory w'.php))
          (release_params env cloexec b user a (data_param c.arg) id out)
  unfolding release_params
  release_params-Ending g u r a id c (kept, w) apart (l, (at, is, has), v) =
      let entry = known_entry l r a c v.covers.distinct at is in
      let block = Covers-block (more (data_refs c) (calling g u)) l w.php r a c v.covers entry in
      Returns.bind
        (release_both a c w.php (record {
          is = block;
          counted =
              λ i. omega (arith, v.covers.objs i, entry.counted i, refs_in-data_param c.arg i);
        }))
        λ p f. Returns.bind (drop_req-Dropped w.store kept id v.inv v.few) λ s d. returns (record {
          inv = d.inv;
          few = ground (arith, d.same_length, v.few);
          ready = d.same_ready ∙ v.ready;
          ledger = remove r l;
          has = remove-Has l r a c entry g apart has;
          covers =
              freed-Covers (calling g u) l w.php p r a c (data_refs c) v.covers entry
                (λ i. omega (arith, f.0 i, refs_in-data_param c.arg i)) f.1;
          addrs = λ k. ground (arith, entry.others k, v.carries.carried k, d.same_reqs);
          plain = λ k. ground (arith, v.carries.plain k, d.same_reqs);
          still = ground (arith, v.carries.carried r, d.same_reqs);
        })

  pub call_back-Ending :
      (g : List Entry) (u : Held) (l : Ledger) (w : World) (r a f : ℕ) (c : EioCb) (q : EioReq)
      (v : Value)
      → IsReady env w
      → Apart g r
      → Has g l
      → w.store.reqs r ≡ some q
      → result_value q b ≡ some v
      → Minds env does user g r w
      → Ledgered (calling g u) l w.store (memory w.php)
      → Listed l r a c
      → Returns (Finishing does g u r) (call_back env cloexec b user r q a c f w)
  unfolding call_back
  call_back-Ending g u l w r a f c q v ready apart has live value minds own entry =
      let p = add_ref (data_param c.arg) w.php in
      let t = add_ref-Takes (data_param c.arg) w.php in
      let e =
        result_effects-Warned cloexec r q (with_php w p) (ground (arith, own.carries.plain r)) in
      rw (value, e.is)
        (Returns.bind
          (Returns.known (
            register_resource-Registered w.store ready.inv (ground (arith, ready.few)) r Kind.req
              (env.handle_address w.store.handles) q ready.ready live ready.fresh))
          λ (id, s) (known, d).
            Returns.bind
              (minds.called _ (with_store (with_php w e.left) s) u a c (id, known)
                (ground (arith, d.targets w.store.next_id, d.id))
                (
                  l,
                  (entry.at, entry.is, has),
                  record {
                    inv = d.inv;
                    few = ground (arith, d.length_lem, ready.few);
                    ready = d.same_ready ∙ ready.ready;
                    covers = record {
                      objs = λ i. ground (arith, e.same_objs, t.refs i, own.covers.objs i);
                      blocks =
                          λ k. ground (arith, e.same_blocks, t.same_blocks k, own.covers.blocks k);
                      distinct = own.covers.distinct;
                      unused = own.covers.unused;
                    };
                    carries = record {
                      carried = λ k. ground (arith, d.same_reqs k, own.carries.carried k);
                      plain = λ k. ground (arith, d.same_reqs k, own.carries.plain k);
                    };
                  },
                ))
              λ out (u', did, k).
                Returns.mono (release_params-Ending g u' r a id c out apart k)
                  λ w' end. (u', did, end))
