-- ===== src/Exchange.antt =====
-- exchange/fx_exchange.go: how a device exchanges blocks with its peers. Each request and each call
-- is one step, which the locks of the two maps see to.
pub mod Peers
pub mod Requests
pub mod Retry
pub mod Publisher
mod Examples
