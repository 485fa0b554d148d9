-- ===== src/Process/Tests.antt =====
-- The initialization of a process and of its child, and an event loop.
use pecl_eio.Base.{
  ℕ, ◌-◌, ◌+◌, ◌<◌, ltb, inl, ◌≡◌, inr, refl, true, false, none, some, [], ◌∷◌, arith, ◌==◌,
  if◌then◌else◌,
}
use pecl_eio.Base.Returns.{Returns}
use pecl_eio.Process.{
  Os, Process, init, is_init, pipe_new, eventfd, open_pipe, prepare_pipe, fd_prepare, pipe_destroy,
  Written, event_loop,
}
use pecl_eio.Process.Init.{
  Initialized, is_open, init-Initialized, pipe_new-no_leak, is_init-destroyed,
}
use pecl_eio.Process.Waking.{Device, Wakes, HasWidth, announce, done_poll, announce-Wakes}
use pecl_eio.Process.Loop.{event_loop-done}

-- A system without eventfd.
abbrev os : Os
os = record {
  getpid = 42;
  have_eventfd = false;
  efd_flags = false;
  eventfd = none;
  pipe = some (3, 4);
  set_nonblock = λ fd. true;
  set_cloexec = λ fd. true;
  eio_init = true;
}

-- One where the second end of the pipe cannot be prepared.
abbrev broken : Os
broken = record os { set_cloexec = λ fd. fd == 3 }

abbrev fresh : Process
fresh = record {
  pid = 0;
  fd0 = none;
  fd1 = none;
  len = 0;
  open_fds = [];
  nonblocking = [];
  cloexec = [];
  fatal = [];
}

-- The child of a process that was initialized.
abbrev child : Process
child = record fresh { pid = 41; fd0 = some 8; fd1 = some 9; len = 1; open_fds = 8 ∷ 9 ∷ [] }

abbrev started : Process
started = record child { pid = 42 }

init-Initialized_example : Initialized os child (init os child)
init-Initialized_example = init-Initialized os child (inr refl)

broken_fails : (pipe_new broken fresh).0 ≡ true
unfolding pipe_new eventfd open_pipe prepare_pipe fd_prepare
broken_fails = refl

pipe_new-no_leak_example : (pipe_new broken fresh).1.open_fds ≡ []
pipe_new-no_leak_example = pipe_new-no_leak broken fresh 3 4 refl refl refl refl broken_fails

is_init-destroyed_example :
    (is_init os (pipe_destroy started) ≡ pipe_destroy started)
    × (is_open (pipe_destroy started) started.fd0 ≡ false)
    × (is_open (pipe_destroy started) started.fd1 ≡ false)
    × ((pipe_destroy started).len ≡ 0)
is_init-destroyed_example = is_init-destroyed os started (omega arith) refl

-- An eventfd, by its counter: it refuses writes of other lengths, and reads that are shorter.
abbrev counter : Device ℕ
counter = record {
  write = λ n c. if n == 8 then (Written.done, c + 1) else (Written.einval, c);
  read = λ n c. if ltb n 8 then c else 0;
  pending = λ c. if c == 0 then 0 else 8;
}

counter-Wakes : Wakes counter
counter-Wakes = record {
  takes = λ s h. refl;
  takes_or_refuses = λ n s h. ground arith;
  wakes = λ n s h e. ground arith;
  refuses = λ n s e. ground arith;
  drains = λ n s h. ground arith;
}

-- A process that takes the eventfd for a pipe.
abbrev narrow : Process
narrow = record started { len = 1 }

announce-Wakes_example :
    (0 < counter.pending (announce counter (narrow, 0)).1)
    × (counter.pending (done_poll counter (announce counter (narrow, 0)).1) ≡ 0)
    × HasWidth (announce counter (narrow, 0)).0
announce-Wakes_example = announce-Wakes counter counter-Wakes narrow 0 (inl refl) refl

event_loop-done_example : Returns (λ n. n ≡ 0) (event_loop (λ n. n) (λ n. n - 1) 4 3)
event_loop-done_example =
    event_loop-done (λ n. n) (λ n. n - 1) (λ n. n) (λ n h. omega arith) 4 3 (omega arith)
