-- ===== src/Api/Submitting.antt =====
-- How much `eio_write` writes and how it copies, and what a callback that cannot be called leads to.
use pecl_eio.Base.{
  ℕ, ◌+◌, ◌<◌, ◌^◌, ◌≡◌, refl, true, false, ◌&&◌, Bool, Option, none, some, ◌∷◌, if◌then◌else◌,
  arith, ltb, ◌-◌, ◌%◌, ap, write, take,
}
use pecl_eio.Base.Int.{ℤ, pos, negsuc, to_uint, to_int32-pos}
use pecl_eio.Base.Returns
use pecl_eio.Base.Returns.{Returns, returns}
use pecl_eio.Zend.{Bytes, bytes, Zval, Php, Callable, invalid_callback}
use pecl_eio.Callbacks.{new_eio_cb, import_func_info}
use pecl_eio.World.{World, Ret, Env, IsEnv, Call, type_of, request, with_php, bailout}
use pecl_eio.World.Submission.{IsReady, Outcome, send-Outcome, send-Buffered, send-requested}
use pecl_eio.Request.{ReqType, content, buf_in}
use pecl_eio.Handles.Resources.{Kind}
use pecl_eio.Api.Descriptors.{num_bytes, write_request}

-- The values of a `zend_long`.
abbrev pub IsLong : ℤ → Type 0
IsLong (pos k) = k < 2 ^ 63
IsLong (negsuc k) = k < 2 ^ 63

abbrev pub within : ℕ → ℤ → ℤ
within n (pos k) = if ltb 0 k && ltb k n then pos k else pos n
within n (negsuc k) = pos n

import_func_info-invalid :
    (is_callable : Zval → Option Callable) (z : Zval) (p : Php)
    → is_callable z ≡ none
    → import_func_info is_callable (some z) p ≡ (none, record p { errors = p.errors + 1 })
unfolding import_func_info
import_func_info-invalid is_callable z p bad = rw (bad, import_func_info) refl

new_eio_cb-invalid :
    (is_callable : Zval → Option Callable) (z : Zval) (arg : Option Zval) (p : Php) (a : ℕ)
    → is_callable z ≡ none
    → new_eio_cb is_callable (some a) (some z) arg p
      ≡ (none, record p { errors = p.errors + 1; thrown = invalid_callback ∷ p.thrown })
unfolding new_eio_cb
new_eio_cb-invalid is_callable z arg p a bad =
    rw (import_func_info-invalid is_callable z p bad) refl

-- For a string of fewer than 2^31 bytes and a length in the range of `zend_long`, `eio_write`
-- writes the given number of bytes where it is positive and less than the length of the string, and
-- the whole string where it is anything else, also negative, or where it is not given.
pub num_bytes_lem :
    (two_args : Bool) (n : ℕ) (length : ℤ)
    → n < 2 ^ 31
    → IsLong length
    → num_bytes two_args n length ≡ (if two_args then pos n else within n length)
unfolding num_bytes to_uint
num_bytes_lem true n z h l = to_int32-pos n h
num_bytes_lem false n (pos k) h l =
    ground (arith, to_int32-pos n h, to_int32-pos k, pattern_pos k l)
  where
    pattern_pos : (k : ℕ) → k < 2 ^ 63 → k % 2 ^ 64 ≡ k
    pattern_pos k l = omega arith
num_bytes_lem false n (negsuc k) h l = ground (arith, to_int32-pos n h, pattern_neg n k h l)
  where
    pattern_neg : (n k : ℕ) → n < 2 ^ 31 → k < 2 ^ 63 → n < 2 ^ 64 - 1 - k % 2 ^ 64
    pattern_neg n k h l = omega arith

module _ (env : Env) where
  -- The callback object of the call, and the values of PHP with it.
  abbrev pub object_made : Option Zval → Option Zval → World → Option ℕ × Php
  object_made zcb arg w = new_eio_cb env.is_callable (env.cb_address w.php) zcb arg w.php

  -- What the end of `eio_write` leaves, where libeio makes the request at `r`.
  abbrev pub Sends : Bool → ℕ → Bytes → ℤ → Option ℕ × Php → ℕ → World → Ret × World → Type 0
  Sends true chars s n (c, p) r w (ret, w') =
      Outcome c w (ret, w') × (w'.php ≡ p) × (buf_in (w'.store.reqs r) ≡ some chars)
  Sends false chars s (pos n) (c, p) r w (ret, w') =
      Outcome c w (ret, w')
      × (w'.php ≡ record p {
        blocks = write p.blocks (env.buf_address p) (some (bytes (take (n % 2 ^ 64) s)));
      })
      × (buf_in (w'.store.reqs r) ≡ some (env.buf_address p))
  Sends false chars s (negsuc n) (c, p) r w (ret, w') =
      (ret ≡ bailout)
      × (w'.php ≡ p)
      × (buf_in (w'.store.reqs r) ≡ some chars)
      × (content (w'.store.reqs r) ≡ some (ReqType.write, c))
      × (w'.store.resources ≡ w.store.resources)

  -- In a world that is ready, with allocators that return unused memory, and where libeio makes the
  -- request at `r`, the end of `eio_write` does not fault. Where the string is no reference and the
  -- number of bytes is not negative, it makes exactly this request, with the callback object, and
  -- returns a new resource for it; the request holds a new block with exactly the bytes to write,
  -- and PHP's memory changes by this block and the callback object only. Where the string is a
  -- reference, the request keeps the pointer to its characters, and there is no block. Where the
  -- number is negative, the end is a fatal error: the request was made and carries the callback
  -- object and the pointer to the characters, and no resource stands for it.
  pub write_request-Sends :
      IsEnv env
      → (is_ref : Bool) (chars : ℕ) (fd : ℤ) (s : Bytes) (n offset pri : ℤ) (zcb arg : Option Zval)
        (w : World) (r : ℕ)
      → IsReady env w
      → env.new_request (Call.write fd s (to_uint 64 n) offset) w.store ≡ some r
      → Returns
          (Sends is_ref chars s n (object_made zcb arg w) r w)
          (write_request env is_ref chars fd s n offset pri zcb arg w)
  unfolding write_request to_uint type_of
  write_request-Sends is true chars fd s n offset pri zcb arg w r v e =
      let (c, p) = object_made zcb arg w in
      Returns.mono (send-Buffered env is (with_php w p) Kind.req _ pri c (some chars) r v e)
        λ out (sent, at). (sent.0, sent.1, at)
  write_request-Sends is false chars fd s (pos n) offset pri zcb arg w r v e =
      let (c, p) = object_made zcb arg w in
      let b = env.buf_address p in
      let p' : Php = record p { blocks = write p.blocks b (some (bytes (take (n % 2 ^ 64) s))) } in
      rw e (
        Returns.mono (send-Buffered env is (with_php w p') Kind.req _ pri c (some b) r v e)
          λ out (sent, at). (sent.0, sent.1, at))
  write_request-Sends is false chars fd s (negsuc n) offset pri zcb arg w r v e =
      let (c, p) = object_made zcb arg w in
      let (php, buf, kind, resources) =
        send-requested env (Call.write fd s (to_uint 64 (negsuc n)) offset) pri c (some chars)
          (with_php w p) r e in
      rw e (returns (refl, php, buf, kind, resources))

  -- In a world that is ready, with allocators that return unused memory: a callback that cannot be
  -- called does not stop the call. One exception is thrown, one error text is never freed, and the
  -- request is made as it would be without a callback object.
  pub request-invalid_callback :
      IsEnv env
      → (call : Call) (pri : ℤ) (z : Zval) (arg : Option Zval) (w : World) (a : ℕ) → IsReady env w
      → env.is_callable z ≡ none
      → env.cb_address w.php ≡ some a
      → Returns
          (λ (ret, w').
            Outcome none w (ret, w')
            × (w'.php.thrown ≡ invalid_callback ∷ w.php.thrown)
            × (w'.php.errors ≡ w.php.errors + 1))
          (request env call pri (some z) arg w)
  unfolding request
  request-invalid_callback is call pri z arg w a v bad at =
      rw (at, new_eio_cb-invalid env.is_callable z arg w.php a bad)
        (Returns.mono (send-Outcome env is _ Kind.req call pri none none v)
          λ (ret, w') o. (o.0, ap (λ p. p.thrown) o.1, ap (λ p. p.errors) o.1))
