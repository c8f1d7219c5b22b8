-- ===== src/Crab.antt =====
-- 3rd/src-c/lua-crab.c: the word filter of the chat. A dictionary is a trie whose nodes are hash
-- tables; tables lie in a store and are named by their address, as `void* value` does.
pub mod Table
pub mod Dict
pub mod Filter
