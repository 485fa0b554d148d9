-- ===== src/Api.antt =====
-- The functions that the extension gives to PHP: php8/php_eio.c, from `PHP_FUNCTION(eio_open)` on.
-- Each takes its parameters as `zend_parse_parameters` leaves them; where that fails the function
-- returns at once, after `PHP_EIO_INIT`. An optional callback that PHP code leaves out is `none`.
pub mod Paths
pub mod Descriptors
pub mod Special
pub mod Control
pub mod Running
pub mod Closing
pub mod Safety
pub mod Refusals
pub mod Submitting
pub mod Polling
mod Tests
