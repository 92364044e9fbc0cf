-- ===== src/Proxy.antt =====
-- internal/proxy: the admission gate in front of the runtime.
pub mod Gate
pub mod Usage
