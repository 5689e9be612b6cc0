-- ===== src/Onedrive.antt =====
-- The OneDrive backend, src/vendors/onedrive/onedrive.c: its requests and its functions on whole files,
-- and the values of a key, which it keeps in one file, each behind its length.
pub mod Request
pub mod Put
pub mod Get
pub mod Listing
pub mod Entry
pub mod Values
pub mod Connect
pub mod Client
pub mod Keystore
pub mod Reload
pub mod Signed
