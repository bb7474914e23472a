-- ===== src/Recordings.antt =====
-- recordings/: the records of uploaded recordings.
pub mod Fold
pub mod Codec
