-- ===== src/Storage.antt =====
-- Storage (src/builder/storage).
pub mod SlotWord
pub mod Layout
