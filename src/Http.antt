-- ===== src/Http.antt =====
-- src/http/http_client.c, with libcurl, cJSON and libc as parameters.
pub mod Handle
pub mod Body
pub mod Step
pub mod Ensures
pub mod Keeps
pub mod Client
