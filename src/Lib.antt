-- ===== src/Lib.antt =====
-- The C code of skynet_slg, a game server on skynet: the modules that its Lua services load, and the
-- two files of Lua that it changes so that encrypted scripts can be loaded.
--
-- The parts and their files:
-- Des: the functions desencode and desdecode in src_encrypt/lauxlib.c. Des/Tables has the S-boxes
--   SB1..SB8 and LHs, RHs; Des/Block the macros DES_IP, DES_FP, DES_ROUND and des_crypt;
--   Des/Schedule has des_main_ks and the reversed schedule of ldesdecode; Des/Padding has
--   padding_add_iso7816_4, padding_add_pkcs7, their inverses, add_padding and remove_padding;
--   Des/Text has des_key, ldesencode and ldesdecode. A text is a list of bytes, a word of 32 bits a
--   number below 2^32, an error of luaL_error a value of DesError.
-- Loader: luaL_loadfilexx in src_encrypt/lauxlib.c, which calls ldesdecode with ENCRY_KEY, and
--   load_aux and luaB_loadfile in src_encrypt/lbaselib.c, which call it. The file format is that of
--   encrycode.lua. The Lua stack is a list.
-- Utf8: _steps, _bytes, _decode, _encode, _toutf32, _toutf8 and _len in 3rd/src-c/lua-utf8.c.
-- Crab: the word filter in 3rd/src-c/lua-crab.c. Crab/Table has the hash table (mainposition,
--   getfreenode, table_newkey, table_expand, table_get, table_insert), Crab/Dict _dict_insert and
--   dict_open on a store of tables, Crab/Filter dict_filter. The client turns a text into runes with
--   Utf8 and back.
-- WordList: 3rd/src-c/crab.c, a program with the same purpose on chains of words. WordList/Chain is
--   about a chain, WordList/Built about the array of chains, WordList/Covered about the program.
-- ClientSocket: block_send, lsend, write_sz, lrecv, read_n, read_2 and read_8 in
--   3rd/src-c/lua-clientsocket.c, on the list of what the kernel answers.
-- NetBytes: 3rd/src-c/lutil.c.
-- Logger: 3rd/src-c/service_mylog.c, with what it does to files as a list of events.
-- WebClient: 3rd/src-c/webclient.c. WebClient has requests, response buffers, headers and the queue
--   of finished requests; WebClient/Form the forms of a multipart post; WebClient/Client the client
--   itself and url_encoding. Allocations are counted by kind.
-- SkipList: 3rd/src-c/skiplist.c and lua-skiplist.c. SkipList has the nodes and their levels in
--   memory and the search that all operations make; SkipList/Key the order of the entries,
--   SkipList/Change slInsert, slDelete, slDeleteNode and slDeleteByRank, SkipList/Query slGetRank,
--   slGetNodeByRank and the ranges of scores, SkipList/Script the functions of lua-skiplist.c. A
--   score is of a type with the operations and laws of doubles that are no NaN. SkipList/Sorted has
--   the sorted list that the memory stands for, SkipList/Links what the links of a level are,
--   SkipList/Walk where a search ends, SkipList/Shape the invariant of the memory, and
--   SkipList/Refine the operations against the sorted list.
-- Prelude: numbers, lists, words and the laws of the bit operations that the parts share.
-- Examples: tests by evaluation, and the theorems at concrete inputs.
--
-- Bounds and fuel. The loops of _toutf32 and _len have fuel for one round more than the string has
-- bytes, dict_filter and _crab a round for each character; a round takes at least one of them.
-- table_get has a round for each node of a table, and table_newkey fuel for one expansion. The walk
-- along a chain in table_newkey has a round for each node; these three are fuel that a chain without
-- cycles does not use up, which is not proved here. The sums of lengths in webclient.c are modulo
-- 2^64. A search in a skip list has a step for each node and one more on every level, which is shown
-- to be enough; a list has fewer than 2^32 - 1 nodes. Strings are shorter than 2^31 bytes, and an
-- address that was freed is not used again.
--
-- Parameters: libcurl, iconv, realloc, fopen, malloc, luaL_loadfilex and luaL_loadbuffer, with what is
-- documented of them as hypotheses. Not modelled: the rest of Lua's lauxlib.c and lbaselib.c,
-- which are copies; slFree, slFreeNode, slFreeObj and slDump, which free memory and print;
-- 3rd/src-c/kcp, a copy of KCP, and its binding lkcp.c; the area of interest and the TLS
-- connection (aoi.c, ltls.c and their bindings); lua-time.c; the Lua services, scripts and
-- configuration.
pub mod Prelude
pub mod Des
pub mod Loader
pub mod Utf8
pub mod NetBytes
pub mod Crab
pub mod WordList
pub mod ClientSocket
pub mod Logger
pub mod WebClient
pub mod SkipList
pub mod Examples
