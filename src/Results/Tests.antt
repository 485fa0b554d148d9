-- ===== src/Results/Tests.antt =====
-- Completions with a callback: one that keeps $req, one that stores $data, one that cancels its own
-- request, and one of a write.
use pecl_eio.Base.{◌≤◌, ℕ, ◌≡◌, refl, true, none, some, [], ◌∷◌, arith, write}
use pecl_eio.Base.Int.{pos}
use pecl_eio.Base.Returns.{Returns}
use pecl_eio.Zend.{bytes, object, EioCb, cb}
use pecl_eio.Callbacks.{no_func}
use pecl_eio.Results.SelfCancel.{canceller, res_cb-cancelled_inside}
use pecl_eio.Request.{EioReq, ReqType}
use pecl_eio.Results.Written.{WriteDone, res_cb-WriteDone}
use pecl_eio.Handles.Steps.{start, start-IsSafe}
use pecl_eio.World.{World}
use pecl_eio.World.Submission.{IsReady}
use pecl_eio.Results.{Stat, Buffers, Value, User, result_value, value_of_type, res_cb}
use pecl_eio.Results.Release.{cb_refs}
use pecl_eio.Examples.{env, env-Cancels, empty, world, waiting_request}

abbrev pub callback : EioCb
callback = record { func = record no_func { func_ptr = some 9 }; arg = object 4 }

abbrev pub waiting_world : World
waiting_world = record world {
  store = start (write (λ _. none) 7 (some waiting_request));
  php = record empty { blocks = write (λ _. none) 100 (some (cb callback)) };
}

pub waiting_world-IsReady : IsReady env waiting_world
waiting_world-IsReady = record {
  inv =
      (start-IsSafe (write (λ _. none) 7 (some waiting_request)) (λ r. ground arith)
        (λ r. ground arith)).inv;
  few = omega arith;
  ready = refl;
  fresh = refl;
}

pub callback_counted : (i : ℕ) → cb_refs i callback ≤ waiting_world.php.objs i
callback_counted i = ground arith

abbrev pub zeros : Stat
zeros = record {
  dev = pos 0;
  ino = pos 0;
  mode = pos 0;
  nlink = pos 0;
  uid = pos 0;
  size = pos 0;
  gid = pos 0;
  rdev = pos 0;
  blksize = pos 0;
  blocks = pos 0;
  atime = pos 0;
  mtime = pos 0;
  ctime = pos 0;
}

abbrev pub buffers : Buffers
buffers = record {
  buf = [];
  ents = [];
  stat_buf = zeros;
  statvfs_buf = record {
    bsize = pos 0;
    frsize = pos 0;
    blocks = pos 0;
    bfree = pos 0;
    bavail = pos 0;
    files = pos 0;
    ffree = pos 0;
    favail = pos 0;
    fsid = pos 0;
    flag = pos 0;
    namemax = pos 0;
  };
}

-- PHP code that keeps the request and does nothing else.
abbrev pub keeper : User
keeper x u = some (true, u)

pub nop_value : result_value waiting_request buffers ≡ some (Value.number (pos 0))
unfolding result_value value_of_type
nop_value = refl

res_cb-cancelled_inside_example :
    res_cb env (λ fd. true) buffers (canceller env true) 7 waiting_world ≡ none
res_cb-cancelled_inside_example =
    res_cb-cancelled_inside env env-Cancels (λ fd. true) buffers true waiting_world 7 100 9 callback
      waiting_request (Value.number (pos 0)) waiting_world-IsReady refl refl refl refl refl refl
      callback_counted refl nop_value

-- A write of two bytes that is done.
abbrev written_request : EioReq
written_request = record waiting_request { type = ReqType.write; result = pos 2; buf = some 200 }

abbrev written_world : World
written_world = record world {
  store = start (write (λ _. none) 7 (some written_request));
  php = record empty {
    blocks = write (write (λ _. none) 100 (some (cb callback))) 200 (some (bytes (104 ∷ 105 ∷ [])));
  };
}

written_world-IsReady : IsReady env written_world
written_world-IsReady = record {
  inv =
      (start-IsSafe (write (λ _. none) 7 (some written_request)) (λ r. ground arith)
        (λ r. ground arith)).inv;
  few = omega arith;
  ready = refl;
  fresh = refl;
}

res_cb-WriteDone_example :
    Returns
      (WriteDone written_world 7 100 200 callback true)
      (res_cb env (λ fd. true) buffers keeper 7 written_world)
res_cb-WriteDone_example =
    res_cb-WriteDone env (λ fd. true) buffers keeper true written_world 7 100 200 9 callback
      written_request (104 ∷ 105 ∷ []) written_world-IsReady refl refl refl refl refl refl refl refl
      refl (λ i. ground arith) (λ x u. refl)
