-- ===== src/Process/Init.antt =====
-- Initialization: what holds afterwards, and when it is not done again.
use pecl_eio.Base.{
  ℕ, ◌≡◌, ◌≢◌, ◌⊎◌, inl, inr, refl, ◌<◌, Bool, true, false, not, ◌||◌, ◌&&◌, Option, none, some,
  List, [], ◌∷◌, arith, ◌==◌, ltb, ◌∙◌,
}
use pecl_eio.Process.{
  Os, Process, no_pipe, no_eio, remove, contains, open_pipe, prepare_pipe, pipe_new, pipe_destroy,
  init, init_eio, is_init, want_poll, Written, einval, done, failed,
}

abbrev pub is_open : Process → Option ℕ → Bool
is_open p none = false
is_open p (some fd) = contains p.open_fds fd

-- The event pipe is there: both ends are open, and 1 or 8 bytes are written to it at a time.
pub record IsPipe (p : Process) : Type 0 where
  pub width : (p.len ≡ 1) ⊎ (p.len ≡ 8)
  pub reads : is_open p p.fd0 ≡ true
  pub writes : is_open p p.fd1 ≡ true

-- The outcome of `php_eio_pipe_new`.
abbrev pub Piped : Process → Bool × Process → Type 0
Piped p (true, q) = (q.pid ≡ p.pid) × (q.len ≡ p.len) × (q.fatal ≡ p.fatal)
Piped p (false, q) = (q.pid ≡ p.pid) × (q.fatal ≡ p.fatal) × IsPipe q

prepare_pipe-Piped :
    (os : Os) (r w : ℕ) (fds : List ℕ) (p : Process)
    → Piped p
        (prepare_pipe os r w (record p { fd0 = some r; fd1 = some w; open_fds = r ∷ w ∷ fds }))
unfolding prepare_pipe
prepare_pipe-Piped os r w fds p = ground arith

open_pipe-Piped : (os : Os) (p : Process) → Piped p (open_pipe os (none, p))
unfolding open_pipe
open_pipe-Piped os p = ground (arith)

pub pipe_new-Piped : (os : Os) (p : Process) → Piped p (pipe_new os p)
unfolding pipe_new
pipe_new-Piped os p = ground (arith, open_pipe-Piped os p)

-- The outcome of a `php_eio_init` that has something to do.
abbrev pub Initialized : Os → Process → Process → Type 0
Initialized os p q =
    ((q.pid ≡ os.getpid) × (q.fatal ≡ p.fatal) × IsPipe q)
    ⊎ ((q.pid ≡ p.pid) × ((q.fatal ≡ no_pipe ∷ p.fatal) ⊎ (q.fatal ≡ no_eio ∷ p.fatal)))

init_eio-Initialized :
    (os : Os) (p : Process) (r : Bool × Process) → Piped p r → Initialized os p (init_eio os r)
unfolding init_eio
init_eio-Initialized os p (true, q) h = inr (h.0, inl (ground arith))
init_eio-Initialized os p (false, q) h = ground arith

-- In a process that was never initialized, or whose id is not the one that was stored (a child
-- after `fork`), `php_eio_init` stores the id of the process, reports nothing and leaves an event
-- pipe with both ends open that is 1 or 8 bytes wide; or it reports exactly one fatal error and
-- keeps the stored id, so that the next call tries again.
pub init-Initialized :
    (os : Os) (p : Process)
    → (p.pid ≡ 0) ⊎ ((p.pid == os.getpid) ≡ false)
    → Initialized os p (init os p)
unfolding init
init-Initialized os p h =
    let needed : (p.pid == 0 || (ltb 0 p.pid && not (os.getpid == p.pid))) ≡ true = ground arith in
    rw needed (init_eio-Initialized os p (pipe_new os p) (pipe_new-Piped os p))

-- In a process whose id, which is positive, is stored already, `PHP_EIO_IS_INIT` does nothing.
pub is_init-again : (os : Os) (p : Process) → 0 < os.getpid → p.pid ≡ os.getpid → is_init os p ≡ p
unfolding is_init init
is_init-again os p h e = ground arith

remove_absent : (x : ℕ) (fds : List ℕ) → contains fds x ≡ false → remove x fds ≡ fds
remove_absent x [] h = refl
remove_absent x (y ∷ ys) h = ground (arith, remove_absent x ys)

contains-remove :
    (x y : ℕ) (fds : List ℕ) → contains fds x ≡ false → contains (remove y fds) x ≡ false
contains-remove x y [] h = refl
contains-remove x y (z ∷ zs) h = ground (arith, contains-remove x y zs)

contains-remove_self : (x : ℕ) (fds : List ℕ) → contains (remove x fds) x ≡ false
contains-remove_self x [] = refl
contains-remove_self x (z ∷ zs) = ground (arith, contains-remove_self x zs)

-- Without eventfd, and where `pipe` gives two descriptors that were not open: if `php_eio_pipe_new`
-- fails, the descriptors that are open are the ones from before.
pub pipe_new-no_leak :
    (os : Os) (p : Process) (r w : ℕ)
    → os.have_eventfd ≡ false
    → os.pipe ≡ some (r, w)
    → contains p.open_fds r ≡ false
    → contains p.open_fds w ≡ false
    → (pipe_new os p).0 ≡ true
    → (pipe_new os p).1.open_fds ≡ p.open_fds
unfolding pipe_new
pipe_new-no_leak os p r w none_there made new_r new_w fails =
    ground (arith, remove_absent r p.open_fds, remove_absent w p.open_fds)

-- After `php_eio_pipe_destroy`, neither end of the pipe is open, and the width of the pipe is 0.
pub pipe_destroy_lem :
    (p : Process)
    → (is_open (pipe_destroy p) p.fd0 ≡ false)
      × (is_open (pipe_destroy p) p.fd1 ≡ false)
      × ((pipe_destroy p).len ≡ 0)
unfolding pipe_destroy
pipe_destroy_lem p = ends p.fd0 p.fd1 refl refl
  where
    ends :
        (a b : Option ℕ)
        → p.fd0 ≡ a
        → p.fd1 ≡ b
        → (is_open (pipe_destroy p) a ≡ false)
          × (is_open (pipe_destroy p) b ≡ false)
          × ((pipe_destroy p).len ≡ 0)
    ends none none e f = ground arith
    ends (some a) none e f = ground (arith, contains-remove_self a p.open_fds)
    ends none (some b) e f = ground (arith, contains-remove_self b p.open_fds)
    ends (some a) (some b) e f = ground (
      arith,
      contains-remove_self a p.open_fds,
      contains-remove_self b p.open_fds,
      contains-remove_self b (remove a p.open_fds),
      contains-remove a b (remove a p.open_fds),
    )

pipe_destroy-pid : (p : Process) → (pipe_destroy p).pid ≡ p.pid
unfolding pipe_destroy
pipe_destroy-pid p = ground arith

-- In a process whose id, which is positive, is stored, `PHP_EIO_IS_INIT` after
-- `php_eio_pipe_destroy` changes nothing: the pipe is not made again. Its width is 0, and neither
-- of its ends is open.
pub is_init-destroyed :
    (os : Os) (p : Process)
    → 0 < os.getpid
    → p.pid ≡ os.getpid
    → (is_init os (pipe_destroy p) ≡ pipe_destroy p)
      × (is_open (pipe_destroy p) p.fd0 ≡ false)
      × (is_open (pipe_destroy p) p.fd1 ≡ false)
      × ((pipe_destroy p).len ≡ 0)
is_init-destroyed os p h e =
    let (reads, writes, width) = pipe_destroy_lem p in
    (is_init-again os (pipe_destroy p) h (pipe_destroy-pid p ∙ e), reads, writes, width)

-- The callback that announces results writes as many bytes as the pipe is wide. Exactly where this
-- is refused with EINVAL and the width is not 8, it writes 8 bytes as well and keeps that width;
-- otherwise it writes once and changes nothing.
pub want_poll-width :
    (write : ℕ → Written) (p : Process)
    → ((write p.len ≡ einval)
        × (p.len ≢ 8)
        × (want_poll write p ≡ (p.len ∷ 8 ∷ [], record p { len = 8 })))
      ⊎ (((write p.len ≢ einval) ⊎ (p.len ≡ 8)) × (want_poll write p ≡ (p.len ∷ [], p)))
unfolding want_poll
want_poll-width write p = by_result (write p.len) refl
  where
    by_result :
        (o : Written)
        → write p.len ≡ o
        → ((write p.len ≡ einval)
            × (p.len ≢ 8)
            × (want_poll write p ≡ (p.len ∷ 8 ∷ [], record p { len = 8 })))
          ⊎ (((write p.len ≢ einval) ⊎ (p.len ≡ 8)) × (want_poll write p ≡ (p.len ∷ [], p)))
    by_result einval e = ground arith
    by_result done e = ground arith
    by_result failed e = ground arith
