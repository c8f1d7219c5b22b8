-- ===== src/Des.antt =====
-- The DES code that src_encrypt/lauxlib.c adds to Lua's auxiliary library.
pub mod Tables
pub mod Block
pub mod Schedule
pub mod Padding
pub mod Text
