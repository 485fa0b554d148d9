-- ===== src/Examples.antt =====
-- One concrete surrounding for the tests: a system without eventfd, allocators with one address each,
-- no stream, and a world in which nothing happened yet.
use pecl_eio.Base.{
  ◌≡◌, refl, true, false, Option, none, some, [], arith, is_some, ◌==◌, if◌then◌else◌,
}
use pecl_eio.Base.Int.{pos}
use pecl_eio.Request.{EioReq, Reqs, nop, libeio, content, Frees}
use pecl_eio.Request
use pecl_eio.Zend.{Zval, object, Callable, Php}
use pecl_eio.Process.{
  Os, Process, is_init, init, init_eio, pipe_new, eventfd, open_pipe, prepare_pipe, fd_prepare,
}
use pecl_eio.Fd.{FdEnv}
use pecl_eio.Handles.Steps.{start, start-IsSafe}
use pecl_eio.World.{World, Env, IsEnv, bails}
use pecl_eio.World.Submission.{IsReady}
use pecl_eio.Api.Control.Cancelling.{Cancels}

abbrev pub os : Os
os = record {
  getpid = 42;
  have_eventfd = false;
  efd_flags = false;
  eventfd = none;
  pipe = some (3, 4);
  set_nonblock = λ fd. true;
  set_cloexec = λ fd. true;
  eio_init = true;
}

abbrev pub fds : FdEnv
fds = record {
  stream_of = λ id. none;
  socket_of = λ i. none;
  einprogress = 115;
  lval = λ id. pos id;
}

abbrev pub is_callable : Zval → Option Callable
is_callable (object i) =
    some (record { calling_scope = none; function_handler = i; is_static = false; object = some i })
is_callable _ = none

abbrev pub env : Env
env = record {
  is_callable = is_callable;
  cb_address = λ p. if is_some (p.blocks 100) then none else some 100;
  buf_address = λ p. 200;
  handle_address = λ m.
      if is_some (m 50)
      then (if is_some (m 51) then (if is_some (m 52) then 53 else 52) else 51)
      else 50;
  new_request = λ c s.
      if is_some (s.reqs 7)
      then (if is_some (s.reqs 8) then (if is_some (s.reqs 9) then none else some 9) else some 8)
      else some 7;
  request_args = λ c. (0, 0);
  eio_api_destroy = 1;
  lib = record { destroy = λ f r m q. if r == q then none else m q };
  cancel = λ r m. m;
  grp_cancel = λ g m. m;
  grp_add = λ g r m. m;
  grp_limit = λ g n m. m;
  strerror = λ n. [];
  to_string = λ z. [];
  exists_file = λ path. true;
  os = os;
  fds = fds;
}

pub env-IsEnv : IsEnv env
env-IsEnv = record { fresh_cb = λ p a e. ground arith; fresh_request = λ c s r e. ground arith }

pub env-Cancels : Cancels env
env-Cancels = record { keeps = λ r m k. refl }

abbrev pub empty : Php
empty = record { objs = λ i. 1; blocks = λ a. none; errors = 0; thrown = []; warnings = [] }

abbrev pub fresh : Process
fresh = record {
  pid = 0;
  fd0 = none;
  fd1 = none;
  len = 0;
  open_fds = [];
  nonblocking = [];
  cloexec = [];
  fatal = [];
}

abbrev pub world : World
world = record { store = start (λ _. none); php = empty; process = fresh; submitted = [] }

pub world-IsReady : IsReady env world
world-IsReady = record {
  inv = (start-IsSafe (λ _. none) (λ r. refl) (λ r. refl)).inv;
  few = omega arith;
  ready = refl;
  fresh = refl;
}

pub no_fatal : (w : World) → w.process ≡ fresh → bails env w ≡ false
unfolding bails is_init init init_eio pipe_new eventfd open_pipe prepare_pipe fd_prepare
no_fatal w e = rw e refl

-- Its request is alive and has a callback object.
abbrev pub live_request : EioReq
live_request = record {
  type = nop;
  result = pos 0;
  size = 0;
  int1 = 0;
  errorno = 0;
  cancelled = false;
  cb_data = some 100;
  buf = none;
  destroy = Request.Destroy.hook;
}

-- A request with a callback that is about to be called.
abbrev pub waiting_request : EioReq
waiting_request = record live_request { destroy = libeio 1 }

pub env-Frees : Frees env.lib
env-Frees = record { frees = λ f r m q. refl }
