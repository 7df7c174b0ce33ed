-- ===== src/Crypt.antt =====
-- The file encryption of kernel/sys.c: the key, the ordering of its letters, the transposition of a
-- block, and the list of encrypted files.
pub mod Sort
pub mod Password
pub mod Transpose
