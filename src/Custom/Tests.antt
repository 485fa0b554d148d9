-- ===== src/Custom/Tests.antt =====
-- A custom request that runs, and its completion.
use pecl_eio.Base.{◌≡◌, refl, true, false, none, some, arith, write}
use pecl_eio.Base.Int.{pos}
use pecl_eio.Request.{EioReq}
use pecl_eio.Zend.{object, long, EioCbCustom, cb_custom, zval}
use pecl_eio.Callbacks.{no_func}
use pecl_eio.Handles.Steps.{start, start-IsSafe}
use pecl_eio.World.{World, with_php}
use pecl_eio.World.Submission.{IsReady}
use pecl_eio.Custom.{Stack, Exec, CustomUser, res_cb_custom, result_param}
use pecl_eio.Custom.Execution.{take_ret}
use pecl_eio.Custom.Completion.{res_cb_custom-over_released}
use pecl_eio.Examples.{env, world, empty, waiting_request}

abbrev pub custom_cb : EioCbCustom
custom_cb = record {
  func = record no_func { func_ptr = some 9 };
  func_exec = record no_func { func_ptr = some 8 };
  arg = object 4;
  locked = false;
}

-- The callback `execute` is to be called.
abbrev to_run : World
to_run = record world {
  store = start (write (λ _. none) 7 (some waiting_request));
  php = record empty { blocks = write (λ _. none) 100 (some (cb_custom custom_cb)) };
}

to_run-IsReady : IsReady env to_run
to_run-IsReady = record {
  inv =
      (start-IsSafe (write (λ _. none) 7 (some waiting_request)) (λ r. ground arith)
        (λ r. ground arith)).inv;
  few = omega arith;
  ready = refl;
  fresh = refl;
}

-- PHP code that returns the number 5, and PHP code that keeps the request.
abbrev pub five : Exec
five x u = some (some (long (pos 5)), with_php u (take_ret (some (long (pos 5))) u.php))

abbrev pub keeper : CustomUser
keeper x u = some (true, u)

abbrev pub own : Stack
own = record { limit = 1; base = 2 }

abbrev pub main_stack : Stack
main_stack = record { limit = 3; base = 4 }

-- The execution returned the object 5, which is stored at 200.
abbrev returned_request : EioReq
returned_request = record waiting_request { buf = some 200 }

abbrev returned : World
returned = record to_run {
  store = start (write (λ _. none) 7 (some returned_request));
  php = record empty {
    objs = λ i. 2;
    blocks =
        write (write (λ _. none) 100 (some (cb_custom custom_cb))) 200 (some (zval (object 5)));
  };
}

returned-IsReady : IsReady env returned
returned-IsReady = record {
  inv =
      (start-IsSafe (write (λ _. none) 7 (some returned_request)) (λ r. ground arith)
        (λ r. ground arith)).inv;
  few = omega arith;
  ready = refl;
  fresh = refl;
}

returned_value : result_param returned_request.buf returned.php ≡ some (object 5)
unfolding result_param
returned_value = refl

-- The request's is the only reference to the object.
abbrev lone : World
lone = record returned { php = record returned.php { objs = λ i. 1 } }

lone-IsReady : IsReady env lone
lone-IsReady = record {
  inv = returned-IsReady.inv;
  few = returned-IsReady.few;
  ready = refl;
  fresh = refl;
}

lone_value : result_param returned_request.buf lone.php ≡ some (object 5)
unfolding result_param
lone_value = refl

res_cb_custom-over_released_example : res_cb_custom env keeper 7 lone ≡ none
res_cb_custom-over_released_example =
    res_cb_custom-over_released env keeper true lone 7 100 9 5 returned_request custom_cb
      (λ x u. refl) lone-IsReady refl refl refl refl refl lone_value refl
