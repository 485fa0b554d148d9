-- ===== src/Ledger/Requests.antt =====
-- A request that is made with a callback object has an entry in the ledger.
use pecl_eio.Base.{
  ℕ, ◌≡◌, refl, true, false, Option, none, some, List, [], ◌∷◌, arith, ◌==◌, if◌then◌else◌,
  value_of,
}
use pecl_eio.Base.Int.{ℤ, pos}
use pecl_eio.Base.Returns
use pecl_eio.Base.Returns.{Returns, returns}
use pecl_eio.Request.{EioReq, libeio, is_plain}
use pecl_eio.Zend.{Zval, Php}
use pecl_eio.Callbacks.{new_eio_cb}
use pecl_eio.Callbacks.Lifetime.{Created, new_eio_cb-Created}
use pecl_eio.Callbacks.Storing.{new_eio_cb-Stored}
use pecl_eio.Handles.Resources.{Kind}
use pecl_eio.Handles.Registering.{register_resource-Registered}
use pecl_eio.World.{World, Env, IsEnv, Call, type_of, send, ret_resource, request, with_php}
use pecl_eio.World.Submission.{IsReady, with_request, with_request-Inv}
use pecl_eio.Ledger.{
  calling, Has, obj_at, Entry, Held, Ledger, Room, memory, addr_of, Covers, data_in, plain_in,
  Owned, Keeps,
}
use pecl_eio.Ledger.Entries.{Stored-Covers}

-- Making a callback object, or none, for the request at `r`: the ledger `l` gets its entry.
pub record Recorded (u : Held) (l : Ledger) (r : ℕ) (out : Option ℕ × Php) : Type 0 where
  pub ledger : Ledger
  pub covers : Covers u ledger (memory out.1)
  pub addrs : (k : ℕ) → addr_of k ledger ≡ (if r == k then out.0 else addr_of k l)
  pub keeps : (g : List Entry) → Has g l → Has g ledger

-- A new entry hides no other.
grown :
    (l : Ledger) (x : Entry)
    → addr_of x.req l ≡ none
    → obj_at x.at l ≡ none
    → (g : List Entry) → Has g l
    → Has g (x ∷ l)
grown l x new fresh [] h = tt
grown l x new fresh (e ∷ g) (at, is, h) = (ground arith, ground arith, grown l x new fresh g h)

module _ (env : Env) (is : IsEnv env) where
  made-Recorded :
      (zcb arg : Option Zval) (u : Held) (l : Ledger) (p : Php) (r a : ℕ) (out : Option ℕ × Php)
      → Covers u l (memory p)
      → addr_of r l ≡ none
      → p.blocks a ≡ none
      → new_eio_cb env.is_callable (some a) zcb arg p ≡ out
      → Created p a out
      → Recorded u l r out
  made-Recorded zcb arg u l p r a (none, q) v new free e c =
      rw c (record { ledger = l; covers = v; addrs = λ k. ground arith; keeps = λ g h. h })
  made-Recorded zcb arg u l p r a (some b, q) v new free e (at, c) =
      let (place, s) = new_eio_cb-Stored env.is_callable (some a) zcb arg p q b e in
      record {
        ledger = record { req = r; at = b; obj = s.made } ∷ l;
        covers = Stored-Covers u l p q r b s v (ground arith) new;
        addrs = λ k. ground arith;
        keeps = grown l (record { req = r; at = b; obj = s.made }) new (ground (arith, v.blocks b));
      }

  new_eio_cb-Recorded :
      (zcb arg : Option Zval) (u : Held) (l : Ledger) (p : Php) (r : ℕ)
      → Covers u l (memory p)
      → addr_of r l ≡ none
      → Recorded u l r (new_eio_cb env.is_callable (env.cb_address p) zcb arg p)
  unfolding new_eio_cb
  new_eio_cb-Recorded zcb arg u l p r v new = at (env.cb_address p) refl
    where
      at :
          (o : Option ℕ)
          → env.cb_address p ≡ o
          → Recorded u l r (new_eio_cb env.is_callable o zcb arg p)
      at none e = record { ledger = l; covers = v; addrs = λ k. ground arith; keeps = λ g h. h }
      at (some a) e =
          let free = is.fresh_cb p a e in
          made-Recorded zcb arg u l p r a _ v new free refl
            (new_eio_cb-Created p a free env.is_callable zcb arg)

  -- libeio makes the request at `r`, with the address that the ledger `l` has for it.
  sent-Owned :
      (g : List Entry) (u : Held) (l : Ledger) (w : World) (kind : Kind) (call : Call) (pri : ℤ)
      (cb : Option ℕ) (r : ℕ)
      → IsReady env w
      → Has g l
      → env.new_request call w.store ≡ some r
      → is_plain (type_of call) ≡ true
      → Covers (calling g u) l (memory w.php)
      → ((k : ℕ) → addr_of k l ≡ (if r == k then cb else data_in (w.store.reqs k)))
      → ((k : ℕ) → plain_in (w.store.reqs k) ≡ true)
      → Returns (λ out. Owned g u out.1) (ret_resource env kind (send env call pri cb none w))
  unfolding send ret_resource
  sent-Owned g u l w kind call pri cb r v has made kept covers addrs plain =
      let q : EioReq = record {
        type = type_of call;
        result = pos 0;
        size = (env.request_args call).0;
        int1 = (env.request_args call).1;
        errorno = 0;
        cancelled = false;
        cb_data = cb;
        buf = none;
        destroy = libeio env.eio_api_destroy;
      } in
      let s = with_request env is w.store r q in
      let free = is.fresh_request call w.store r made in
      rw (made, send)
        (Returns.bind
          (register_resource-Registered s (with_request-Inv env is w.store r q _ v.inv free refl)
            (ground (arith, v.few)) r kind (env.handle_address s.handles) q v.ready (ground arith)
            v.fresh)
          λ (id, t) d. returns (
            l,
            has,
            record {
              inv = d.inv;
              few = ground (arith, d.length_lem, v.few);
              ready = ground (arith, d.same_ready, v.ready);
              covers = covers;
              carries = record {
                carried = λ k. ground (arith, d.same_reqs k, addrs k);
                plain = λ k. ground (arith, d.same_reqs k, plain k);
              };
            },
          ))

  -- A callback object, or none, and a request for it.
  pub asked-Owned :
      (w : World) (kind : Kind) (call : Call) (pri : ℤ) (zcb arg : Option Zval) (g : List Entry)
      (u : Held)
      → Room env w.store
      → is_plain (type_of call) ≡ true
      → Owned g u w
      → Returns
          (λ out. Owned g u out.1)
          (let (c, p) = new_eio_cb env.is_callable (env.cb_address w.php) zcb arg w.php in
            ret_resource env kind (send env call pri c none (with_php w p)))
  asked-Owned w kind call pri zcb arg g u room kept (l, has, v) =
      let (r, made) = value_of (env.new_request call w.store) (room.makes call) in
      let free = is.fresh_request call w.store r made in
      let d =
        new_eio_cb-Recorded zcb arg (calling g u) l w.php r v.covers
          (ground (arith, v.carries.carried r)) in
      let out = new_eio_cb env.is_callable (env.cb_address w.php) zcb arg w.php in
      sent-Owned g u d.ledger (with_php w out.1) kind call pri out.0 r room.ready (d.keeps g has)
        made kept d.covers (λ k. ground (arith, d.addrs k, v.carries.carried k)) v.carries.plain

  pub request-Keeps :
      (call : Call) (pri : ℤ) (zcb arg : Option Zval)
      → is_plain (type_of call) ≡ true
      → Keeps env (request env call pri zcb arg)
  unfolding request
  request-Keeps call pri zcb arg kept w room g u owned =
      asked-Owned w Kind.req call pri zcb arg g u room kept owned
