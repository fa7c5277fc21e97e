-- ===== src/Ext.antt =====
-- internal/ext: extensions to Go's library.
pub mod Bitsx
pub mod Queue
