-- ===== src/Process/Waking.antt =====
-- The callbacks by which libeio wakes the event loop: `php_eio_want_poll_callback` and
-- `php_eio_done_poll_callback`. The pipe or eventfd behind the descriptors is a parameter.
use pecl_eio.Base.{ℕ, ◌<◌, ◌≤◌, ◌≡◌, ◌⊎◌, refl, List, [], ◌∷◌, arith}
use pecl_eio.Process.{Process, Written, want_poll}

-- What the ends of the pipe do: `write` and `read` take a number of bytes, and `pending` says how
-- many bytes a long read would get.
pub record Device (S : Type 0) : Type 0 where
  pub write : ℕ → S → Written × S
  pub read : ℕ → S → S
  pub pending : S → ℕ

-- Of a device with nothing pending: it takes 8 bytes, and refuses other lengths with EINVAL if at
-- all; what it takes is then pending. A read that is long enough leaves nothing.
pub record Wakes {S : Type 0} (d : Device S) : Type 0 where
  pub takes : (s : S) → d.pending s ≡ 0 → (d.write 8 s).0 ≡ Written.done
  pub takes_or_refuses :
      (n : ℕ) (s : S)
      → d.pending s ≡ 0
      → ((d.write n s).0 ≡ Written.done) ⊎ ((d.write n s).0 ≡ Written.einval)
  pub wakes :
      (n : ℕ) (s : S)
      → d.pending s ≡ 0
      → (d.write n s).0 ≡ Written.done
      → d.pending (d.write n s).1 ≡ n
  pub refuses : (n : ℕ) (s : S) → (d.write n s).0 ≡ Written.einval → (d.write n s).1 ≡ s
  pub drains : (n : ℕ) (s : S) → d.pending s ≤ n → d.pending (d.read n s) ≡ 0

module _ {S : Type 0} (d : Device S) where
  abbrev pub write_all : List ℕ → S → S
  write_all [] s = s
  write_all (n ∷ ns) s = write_all ns (d.write n s).1

  -- `php_eio_want_poll_callback`, on the device
  unfoldable pub announce : Process × S → Process × S
  announce (p, s) =
      let (lengths, p') = want_poll (λ n. (d.write n s).0) p in (p', write_all lengths s)

  -- `php_eio_done_poll_callback`: `char buf[9]`
  unfoldable pub done_poll : S → S
  done_poll s = d.read 9 s

abbrev pub HasWidth : Process → Type 0
HasWidth p = (p.len ≡ 1) ⊎ (p.len ≡ 8)

module _ {S : Type 0} (d : Device S) (l : Wakes d) where
  -- For a device that, with nothing pending, takes 8 bytes, and takes or refuses other lengths with
  -- EINVAL, on which what was taken is pending, and from which a long enough read takes all: in a
  -- process whose pipe is 1 or 8 wide, with nothing pending, `php_eio_want_poll_callback` leaves
  -- something pending, so that the event loop wakes up, and keeps the width 1 or 8; after it
  -- `php_eio_done_poll_callback` leaves nothing pending.
  pub announce-Wakes :
      (p : Process) (s : S)
      → HasWidth p
      → d.pending s ≡ 0
      → (0 < d.pending (announce d (p, s)).1)
        × (d.pending (done_poll d (announce d (p, s)).1) ≡ 0)
        × HasWidth (announce d (p, s)).0
  unfolding announce done_poll want_poll
  announce-Wakes p s width idle = by_result (d.write p.len s).0 refl
    where
      by_result :
          (o : Written)
          → (d.write p.len s).0 ≡ o
          → (0 < d.pending (announce d (p, s)).1)
            × (d.pending (done_poll d (announce d (p, s)).1) ≡ 0)
            × HasWidth (announce d (p, s)).0
      by_result Written.done e =
          ground (arith, l.wakes p.len s idle e, l.drains 9 (d.write p.len s).1)
      by_result Written.einval e =
          ground (
            arith,
            l.takes s idle,
            l.refuses p.len s e,
            l.wakes 8 s idle,
            l.drains 9 (d.write 8 s).1,
          )
      by_result Written.failed e = absurd (ground (arith, l.takes_or_refuses p.len s idle))
