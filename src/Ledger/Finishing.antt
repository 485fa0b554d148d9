-- ===== src/Ledger/Finishing.antt =====
-- The end of a request, with PHP code of a callback that does anything the ledger can follow: the
-- finish function `php_eio_res_cb`, then the destroy function.
use pecl_eio.Base.{
  List, ℕ, ◌≡◌, refl, Bool, true, false, none, some, arith, ◌>>=◌, Bool-cases, Option-cases, inl,
  inr, ◌∙◌, ◌⊎◌,
}
use pecl_eio.Base.Int.{ℤ}
use pecl_eio.Base.Returns
use pecl_eio.Base.Returns.{Returns, returns}
use pecl_eio.Request.{EioReq, Frees}
use pecl_eio.Zend.{EioCb}
use pecl_eio.World.{World, Env}
use pecl_eio.World.Submission.{IsReady}
use pecl_eio.Results.{Buffers, Value, result_value, User, res_cb}
use pecl_eio.Results.Completion.{res_cb_calls, res_cb-quiet}
use pecl_eio.Results.Finishing.{destroyed}
use pecl_eio.Ledger.{
  calling, Entry, Has, Apart, Held, Ledger, addr_of, remove, Ledgered, Owned, memory,
}
use pecl_eio.Ledger.Entries.{remove-Has, Listed, listed, Freed-Covers, Covers-block, Covers-counted}
use pecl_eio.Ledger.Calling.{Minds, Finishing, call_back-Ending}
use pecl_eio.Ledger.Control.{destroyed-Owned}

module _ (env : Env) (cloexec : ℤ → Bool) (b : Buffers) (user : User)
    (does : Held → Held → Type 0) where
  -- The object is freed and PHP code is not called.
  unseen-Ending :
      (g : List Entry) (u : Held) (l : Ledger) (w : World) (r a : ℕ) (c : EioCb) (q : EioReq)
      → IsReady env w
      → Apart g r
      → Has g l
      → w.store.reqs r ≡ some q
      → q.cb_data ≡ some a
      → (q.cancelled ≡ true) ⊎ (c.func.func_ptr ≡ none)
      → Minds env does user g r w
      → Ledgered (calling g u) l w.store (memory w.php)
      → Listed l r a c
      → Returns (Finishing does g u r) (res_cb env cloexec b user r w)
  unseen-Ending g u l w r a c q ready apart has live data_of why minds own entry =
      Returns.mono
        (res_cb-quiet env cloexec b user false w r a c q live data_of
          (Covers-block (calling g u) l w.php r a c own.covers entry)
          (Covers-counted (calling g u) l w.php r a c own.covers entry) why)
        λ w' (freed, same). (
          u,
          minds.nothing u,
          rw same (record {
            inv = own.inv;
            few = own.few;
            ready = own.ready;
            ledger = remove r l;
            has = remove-Has l r a c entry g apart has;
            covers = Freed-Covers (calling g u) l w.php w'.php r a c own.covers entry freed;
            addrs = λ k. ground (arith, entry.others k, own.carries.carried k);
            plain = own.carries.plain;
            still = rw live refl;
          }),
        )

  carried-Ending :
      (g : List Entry) (u : Held) (l : Ledger) (w : World) (r a : ℕ) (c : EioCb) (q : EioReq)
      (v : Value)
      → IsReady env w
      → Apart g r
      → Has g l
      → w.store.reqs r ≡ some q
      → q.cb_data ≡ some a
      → result_value q b ≡ some v
      → Minds env does user g r w
      → Ledgered (calling g u) l w.store (memory w.php)
      → Listed l r a c
      → Returns (Finishing does g u r) (res_cb env cloexec b user r w)
  carried-Ending g u l w r a c q v ready apart has live data_of value minds own entry =
      elim (Bool-cases q.cancelled) [
        | inl e ↦ unseen-Ending g u l w r a c q ready apart has live data_of (inl e) minds own entry
        | inr e ↦ elim (Option-cases c.func.func_ptr) [
          | inl i ↦
              unseen-Ending g u l w r a c q ready apart has live data_of (inr i) minds own entry
          | inr (f, i) ↦
              rw
                (res_cb_calls env cloexec b user true w r a f c q live data_of e
                  (Covers-block (calling g u) l w.php r a c own.covers entry) i)
                (call_back-Ending env cloexec b user does g u l w r a f c q v ready apart has live
                  value minds own entry)
        ]
      ]

  res_cb-Ending :
      (g : List Entry) (u : Held) (w : World) (r : ℕ) (q : EioReq) (v : Value)
      → IsReady env w
      → Apart g r
      → w.store.reqs r ≡ some q
      → result_value q b ≡ some v
      → Minds env does user g r w
      → Owned g u w
      → Returns (Finishing does g u r) (res_cb env cloexec b user r w)
  unfolding res_cb
  res_cb-Ending g u w r q v ready apart live value minds (l, has, own) =
      let same : q.cb_data ≡ addr_of r l = ground (arith, own.carries.carried r) in
      elim (Option-cases (addr_of r l)) [
        | inl e ↦
            rw (live, same ∙ e)
              (returns (
                u,
                minds.nothing u,
                record {
                  inv = own.inv;
                  few = own.few;
                  ready = own.ready;
                  ledger = l;
                  has = has;
                  covers = own.covers;
                  addrs = λ k. ground (arith, own.carries.carried k);
                  plain = own.carries.plain;
                  still = rw live refl;
                },
              ))
        | inr (a, e) ↦
            let (c, entry) = listed l r a own.covers.distinct e in
            carried-Ending g u l w r a c q v ready apart has live (same ∙ e) value minds own entry
      ]

  pub finish-Owned :
      Frees env.lib
      → (g : List Entry) (u : Held) (w : World) (r : ℕ) (q : EioReq) (v : Value) → IsReady env w
      → Apart g r
      → w.store.reqs r ≡ some q
      → result_value q b ≡ some v
      → Minds env does user g r w
      → Owned g u w
      → Returns
          (λ w'. (u' : Held) × does u u' × Owned g u' w' × (w'.store.reqs r ≡ none))
          (res_cb env cloexec b user r w >>= destroyed env r)
  finish-Owned f g u w r q v ready apart live value minds own =
      Returns.bind (res_cb-Ending g u w r q v ready apart live value minds own) λ w1 (u', did, end).
        Returns.mono (destroyed-Owned env f g u' w1 r end) λ w' (own', gone). (u', did, own', gone)
