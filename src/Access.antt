-- ===== src/Access.antt =====
-- Who may do what on the device: blockchain/auth_signed.go, blockchain/proxy.go and the
-- authorization part of blockchain/blockchain.go.
pub mod Actions
pub mod Signing
pub mod Proxy
mod Examples
