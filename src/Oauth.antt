-- ===== src/Oauth.antt =====
-- src/oauth/oauth_token.c: the access token of a connection, from the login over its renewal to the
-- file that keeps it.
pub mod Time
pub mod Token
pub mod Exchange
pub mod Authorize
pub mod Outcome
pub mod Renewal
pub mod Wait
pub mod Login
pub mod Expiry
pub mod Storage
