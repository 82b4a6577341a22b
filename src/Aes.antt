-- ===== src/Aes.antt =====
-- src/aes.h and src/aes.cpp: the tables, the key schedule, the transformations of a block, the
-- padding of the last block, the buffer and the modes.
pub mod Tables
pub mod Key
pub mod Block
pub mod Padding
pub mod RoundTrip
pub mod Stream
pub mod Bytes
pub mod Iv
pub mod Modes
pub mod Galois
pub mod Gcm
mod Examples
