-- ===== src/Examples.antt =====
-- Tests of the definitions by evaluation, and the theorems applied at concrete inputs, one module
-- for each part of the program.
mod Des
mod Loader
mod Utf8
mod NetBytes
mod Crab
mod ClientSocket
mod Logger
mod WordList
mod WebClient
mod SkipList
