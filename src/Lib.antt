-- ===== src/Lib.antt =====
-- The PHP extension eio: asynchronous file operations by the thread pool of libeio.
--
-- The extension is php8/php_eio.c with the types and macros of php8/eio_priv.h. PHP code calls a
-- function such as `eio_stat`; the function makes a callback object, asks libeio for a request and
-- returns a resource that stands for it. libeio runs the request, the extension calls the callback,
-- and libeio destroys the request, while PHP code may still hold the resource. So a resource holds a
-- handle, which outlives the request and forgets it when libeio destroys it.
--
-- The parts, and where they are:
-- - Base: what the parts share: tests, lists, the integers of C (`to_int32`, `to_uint`), and
--   `Returns`, the predicate that a computation returns a result with a property.
-- - Request: what the extension reads and writes of libeio's `eio_req`, and libeio's destroy
--   functions, a parameter. An address maps to `none` where there is no live request.
-- - Handles: php_eio_handle, the hash table php_eio_handles, the resources le_eio_req and le_eio_grp.
--   Each operation is a function on `Store` into `Option`; `none` is the use of freed memory or of a
--   NULL pointer. Handles/Inv is the invariant, the files beside it are about one operation each, and
--   Handles/Steps is about sequences of steps. Handles/Weak is the contract, a table of weak references
--   without handles, counts or hooks, and Handles/Refinement relates the two. The bound on resources
--   keeps `refs`, an unsigned of 32 bits, from wrapping round.
-- - Zend, Callbacks: the values of PHP, the reference counts of objects, arrays, resources and
--   strings (but interned ones), each by its address, the memory of PHP, and php_eio_cb_t and
--   php_eio_cb_custom_t (php_eio_import_func_info to php_eio_new_eio_cb_custom).
-- - Process: php_eio_pid, php_eio_pipe, php_eio_init, the macro PHP_EIO_IS_INIT, the callback that
--   announces results, and the event loop. The loop takes fuel; enough is one more than a measure
--   of the work that is left. Process/Waking puts the two poll callbacks on a device, a parameter.
-- - Fd: php_eio_zval_to_fd, as built with EIO_USE_SOCKETS.
-- - Readdir: the arrays that are made of the results of eio_readdir (php_eio_set_readdir_names and
--   php_eio_set_readdir_dent_and_names).
-- - World: the state of a whole call (handles, PHP, process, and the log of the calls of libeio), the
--   surroundings `Env` as a parameter, and the macros PHP_EIO_INIT, PHP_EIO_RET_REQ_RESOURCE and
--   EIO_CHECK_PATH_LEN. World/Submission is about the end that the functions share.
-- - Results: php_eio_res_cb, which makes the value of a result, calls the callback and frees the
--   callback object. The PHP code of the callback is a parameter: it leaves all in peace in
--   Results/Completion and Results/Written, does what it likes within a contract in Results/Careful,
--   and cancels its own request in Results/SelfCancel. Results/Release is about what the end of a
--   completion gives back, Results/Finishing adds the call of the destroy function, and Results/Life
--   the call that made the request; Results/Cancelled has `eio_cancel` in place of the finish function.
-- - Custom: php_eio_custom_execute, which runs PHP code for a custom request, and
--   php_eio_res_cb_custom, which completes one. Custom/Release is about what they give back,
--   Custom/Life about the one after the other, and Custom/Whole adds `eio_custom` before them and the
--   destroy function after them. Both PHP functions are parameters.
-- - Config: the limits that PHP code sets in libeio, and the counters that it reads.
-- - Ledger: the ownership of callback objects, over any number of requests. A ledger has one entry for
--   each live request that carries an object; what is in no entry is PHP code's own. Ledger/Calls is
--   about the functions that make requests, Ledger/Calling and Ledger/Finishing about php_eio_res_cb with PHP
--   code that minds the ledger, Ledger/Control and Ledger/Groups about the functions that take resources,
--   Ledger/Steps and Ledger/Leaks about sequences of steps, and Ledger/Callbacks about callbacks that
--   take such steps themselves, as where they call eio_poll. Ledger/Draining puts php_eio_event_loop
--   around such steps, with fuel above a measure of the work that is left. Ledger/Refused is about a
--   request that libeio does not make. Error texts are counted apart, in `errors`. The requests of eio_custom and eio_write, which own memory of other kinds, are in
--   Custom and Results.
-- - Lifecycle: PHP_MINIT_FUNCTION, PHP_MSHUTDOWN_FUNCTION, PHP_RSHUTDOWN_FUNCTION and
--   php_eio_atfork_child, over the handles and the process. Lifecycle/Types and Lifecycle/Constants are
--   about what the start registers.
-- - Api: one function for each PHP_FUNCTION that makes or controls requests, in Api/Paths,
--   Api/Descriptors, Api/Special and Api/Control. Parameters come as zend_parse_parameters leaves
--   them, and an optional one that was left out is `none` or its default; `parse_path` is where it
--   throws for a path with a NUL byte. Api/Running runs any of the
--   functions that make requests but eio_write, which is in Api/Submitting. Api/Polling has the
--   functions eio_event_loop and eio_poll, over what libeio does in a round.
--
-- What other code does is a parameter: libeio (a copy of it is in libeio/), the engine of PHP, the
-- allocators and the operating system. What is relied on is in the records `Frees` (a destroy
-- function frees its request and touches no other), `IsEnv` (allocators return unused memory),
-- `StoreReady`, `Ran`, `Cancels`, `CancelRuns` and `GroupRuns` (a request that libeio runs or cancels, or
-- works on as a group or a member, keeps its type, callback object and destroy function), `Room`
-- (libeio has memory for a request), `Numbers` (a new type of resources gets a number of its own), and
-- `Wakes` (a pipe or an eventfd).
--
-- Not modelled: PHP_MINFO_FUNCTION, which is output, and the threads of libeio: the PHP code of a
-- custom request runs on one of them, and here it is a step like another. The warnings of EIO_DEBUG
-- are left out, as are builds with ZTS, in which custom requests only throw. A fatal error ends a
-- call: its result is `bailout`. A `double` is given by its bits. Examples holds the surroundings that
-- the tests share.
pub mod Base
pub mod Request
pub mod Handles
pub mod Zend
pub mod Callbacks
pub mod Process
pub mod Fd
pub mod Readdir
pub mod World
pub mod Results
pub mod Custom
pub mod Config
pub mod Ledger
pub mod Lifecycle
pub mod Api
pub mod Examples
