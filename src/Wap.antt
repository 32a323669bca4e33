-- ===== src/Wap.antt =====
-- wap/pkg/server: what the setup server of a device lets browsers and the local network do.
pub mod Cors
pub mod Lan
mod Examples
