-- ===== src/Process.antt =====
-- The process-wide part of php8/php_eio.c: the event pipe, initialization, `fork`, the two poll
-- callbacks and the event loop. What the operating system and libeio answer is a parameter.
pub mod Init
pub mod Loop
pub mod Waking
mod Tests
use pecl_eio.Base.{
  ℕ, zero, suc, Bool, true, false, not, ◌&&◌, ◌||◌, Option, none, some, List, [], ◌∷◌, ◌==◌, ltb,
  if◌then◌else◌,
}

-- The answers to the calls of one initialization: `none` and `false` are failures.
-- `set_nonblock` and `set_cloexec` are the two calls
-- of `fcntl`. `have_eventfd` is HAVE_EVENTFD, `efd_flags` says that EFD_NONBLOCK and EFD_CLOEXEC are defined.
pub record Os : Type 0 where
  pub getpid : ℕ
  pub have_eventfd : Bool
  pub efd_flags : Bool
  pub eventfd : Option ℕ
  pub pipe : Option (ℕ × ℕ)
  pub set_nonblock : ℕ → Bool
  pub set_cloexec : ℕ → Bool
  pub eio_init : Bool

pub data Fatal : Type 0 where
  no_pipe no_eio : Fatal

-- `php_eio_pid` and `php_eio_pipe`; a descriptor of -1 is `none`. `open_fds`, `nonblocking` and
-- `cloexec` are the descriptors that the extension opened, and those of them that are non-blocking
-- and that are closed on exec.
pub record Process : Type 0 where
  pub pid : ℕ
  pub fd0 : Option ℕ
  pub fd1 : Option ℕ
  pub len : ℕ
  pub open_fds : List ℕ
  pub nonblocking : List ℕ
  pub cloexec : List ℕ
  pub fatal : List Fatal

abbrev pub remove : ℕ → List ℕ → List ℕ
remove x [] = []
remove x (y ∷ ys) = if x == y then remove x ys else y ∷ remove x ys

abbrev pub contains : List ℕ → ℕ → Bool
contains [] x = false
contains (y ∷ ys) x = x == y || contains ys x

-- `close`
abbrev pub close : ℕ → Process → Process
close fd p = record p {
  open_fds = remove fd p.open_fds;
  nonblocking = remove fd p.nonblocking;
  cloexec = remove fd p.cloexec;
}

abbrev pub close_fd : Option ℕ → Process → Process
close_fd none p = p
close_fd (some fd) p = close fd p

-- `fcntl(fd, F_SETFD, FD_CLOEXEC)` of `php_eio_fd_prepare`: whether it failed.
abbrev pub close_on_exec : Os → ℕ → Process → Bool × Process
close_on_exec os fd p =
    if os.set_cloexec fd then (false, record p { cloexec = fd ∷ p.cloexec }) else (true, p)

-- `php_eio_fd_prepare`: whether it failed, and the process after it. The second call is made only
-- where the first succeeds.
unfoldable pub fd_prepare : Os → Option ℕ → Process → Bool × Process
fd_prepare os none p = (true, p)
fd_prepare os (some fd) p =
    if os.set_nonblock fd
    then close_on_exec os fd (record p { nonblocking = fd ∷ p.nonblocking })
    else (true, p)

-- `php_eio_eventfd`
unfoldable pub eventfd : Os → Process → Option ℕ × Process
unfolding fd_prepare
eventfd os p =
    if os.have_eventfd
    then elim os.eventfd [
      | none ↦ (none, p)
      | some fd ↦
          if os.efd_flags
          then (
            some fd,
            record p {
              open_fds = fd ∷ p.open_fds;
              nonblocking = fd ∷ p.nonblocking;
              cloexec = fd ∷ p.cloexec;
            },
          )
          else (some fd, (fd_prepare os p.fd0 (record p { open_fds = fd ∷ p.open_fds })).1)
    ]
    else (none, p)

-- The branch of `php_eio_pipe_new` without an eventfd, once the pipe `(r, w)` is made.
unfoldable pub prepare_pipe : Os → ℕ → ℕ → Process → Bool × Process
unfolding fd_prepare
prepare_pipe os r w p =
    let (bad0, p) = fd_prepare os (some r) p in
    let (bad1, q) = fd_prepare os (some w) p in
    if bad0
    then (true, close w (close r p))
    else if bad1
    then (true, close w (close r q))
    else (false, record q { len = 1 })

-- The rest of `php_eio_pipe_new`, from the result of `php_eio_eventfd` on.
unfoldable pub open_pipe : Os → Option ℕ × Process → Bool × Process
unfolding prepare_pipe
open_pipe os (some fd, p) = (false, record p { fd0 = some fd; fd1 = some fd; len = 8 })
open_pipe os (none, p) = elim os.pipe [
  | none ↦ (true, record p { fd0 = none })
  | some (r, w) ↦
      prepare_pipe os r w (record p { fd0 = some r; fd1 = some w; open_fds = r ∷ w ∷ p.open_fds })
]

-- `php_eio_pipe_new`: whether it failed.
unfoldable pub pipe_new : Os → Process → Bool × Process
unfolding eventfd open_pipe
pipe_new os p = open_pipe os (eventfd os p)

abbrev pub same_fd : Option ℕ → Option ℕ → Bool
same_fd none none = true
same_fd (some a) (some b) = a == b
same_fd _ _ = false

-- `php_eio_pipe_destroy`
unfoldable pub pipe_destroy : Process → Process
pipe_destroy p =
    let q = close_fd p.fd0 p in
    let q' = if same_fd p.fd1 p.fd0 then q else close_fd p.fd1 q in record q' { len = 0 }

-- The body of `php_eio_init` behind its test, from the result of `php_eio_pipe_new` on.
unfoldable pub init_eio : Os → Bool × Process → Process
init_eio os (true, p) = record p { fatal = no_pipe ∷ p.fatal }
init_eio os (false, p) =
    if os.eio_init then record p { pid = os.getpid } else record p { fatal = no_eio ∷ p.fatal }

-- `php_eio_init`
unfoldable pub init : Os → Process → Process
unfolding pipe_new init_eio
init os p =
    if p.pid == 0 || (ltb 0 p.pid && not (os.getpid == p.pid))
    then init_eio os (pipe_new os p)
    else p

-- `PHP_EIO_IS_INIT`
unfoldable pub is_init : Os → Process → Process
unfolding init
is_init os p = if p.pid == 0 || p.len == 0 then init os p else p

-- The result of `write` in `php_eio_want_poll_callback`.
pub data Written : Type 0 where
  done einval failed : Written

-- `php_eio_want_poll_callback`: the lengths that it writes, and the process after it.
unfoldable pub want_poll : (ℕ → Written) → Process → List ℕ × Process
want_poll write p = elim (write p.len) [
  | einval ↦ if p.len == 8 then (p.len ∷ [], p) else (p.len ∷ 8 ∷ [], record p { len = 8 })
  | _ ↦ (p.len ∷ [], p)
]

-- The loop of `php_eio_event_loop`: `nreqs` is `eio_nreqs`, `round` a `poll` and an `eio_poll`.
-- `none` means that the fuel ran out.
unfoldable pub event_loop : {S : Type 0} → (S → ℕ) → (S → S) → ℕ → S → Option S
event_loop nreqs round zero s = none
event_loop nreqs round (suc fuel) s =
    let rest = event_loop nreqs round fuel (round s) in if nreqs s == 0 then some s else rest
