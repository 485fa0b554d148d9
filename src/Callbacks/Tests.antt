-- ===== src/Callbacks/Tests.antt =====
-- Callback objects of a closure, with an argument.
use pecl_eio.Base.{refl, false, Option, none, some, []}
use pecl_eio.Zend.{Zval, object, Callable, Php}
use pecl_eio.Callbacks.{new_eio_cb}
use pecl_eio.Callbacks.Lifetime.{Created, new_eio_cb-Created}

-- Objects can be called, other values cannot.
abbrev is_callable : Zval → Option Callable
is_callable (object i) =
    some (record { calling_scope = none; function_handler = i; is_static = false; object = some i })
is_callable _ = none

abbrev empty : Php
empty = record { objs = λ i. 1; blocks = λ a. none; errors = 0; thrown = []; warnings = [] }

new_eio_cb-Created_example :
    Created empty 100 (new_eio_cb is_callable (some 100) (some (object 3)) (some (object 4)) empty)
new_eio_cb-Created_example =
    new_eio_cb-Created empty 100 refl is_callable (some (object 3)) (some (object 4))
