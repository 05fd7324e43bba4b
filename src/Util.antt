-- ===== src/Util.antt =====
-- pkg/util: which SigNoz instances a deployment talks to.
pub mod Allowlist
pub mod Url
