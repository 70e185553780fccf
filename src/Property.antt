-- ===== src/Property.antt =====
-- src/property.c: how properties are printed, packed and kept.
pub mod Format
pub mod Serial
pub mod Store
