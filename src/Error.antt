-- ===== src/Error.antt =====
-- src/hive_error.c, src/http_status.c and the error codes of src/ela_hive.h.
pub mod Code
pub mod Fields
pub mod Table
pub mod Strerror
pub mod Dispatch
pub mod Text
pub mod Register
