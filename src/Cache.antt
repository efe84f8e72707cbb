-- ===== src/Cache.antt =====
-- packages/cache/src: what the modules below model of it.
pub mod Singleflight
pub mod Store
pub mod Keys
pub mod Service
mod Tests
