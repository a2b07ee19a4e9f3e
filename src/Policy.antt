-- ===== src/Policy.antt =====
-- components/ot_policy/ot_http_policy.c: which requests the web server answers.
-- A C string is the list of its bytes without the terminator, and none for NULL.
pub mod Text
pub mod Check
pub mod Host
pub mod Access
pub mod Address
mod Examples
