-- ===== src/Oauth.antt =====
-- internal/oauth: the encrypted tokens, the PKCE check and the handlers of the endpoints.
pub mod Crypto
pub mod Pkce
pub mod Handlers
