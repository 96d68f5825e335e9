-- ===== src/Chunk.antt =====
-- vm/src/bytecode/chunk_serialization.cpp: the file format of compiled modules, and its theorems.
pub mod Reader
pub mod Bytes
pub mod Words
pub mod Tree
pub mod Default
pub mod Records
pub mod Writer
pub mod Loader
pub mod Inverse
pub mod Defaults
pub mod Classes
pub mod RoundTrip
pub mod Reads
pub mod Total
pub mod Ends
mod Tests
