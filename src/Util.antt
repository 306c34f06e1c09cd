-- ===== src/Util.antt =====
-- util: reading bencode values.
pub mod Bencode
