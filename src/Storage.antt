-- ===== src/Storage.antt =====
-- storage/src: the files of the storage and the access to them.
pub mod Locks
