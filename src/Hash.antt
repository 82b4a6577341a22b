-- ===== src/Hash.antt =====
-- src/hash.h and src/hash.cpp: the checksum `mhash`, and the classes SHA256, MD5 and SHA1.
pub mod Common
pub mod Bytes
pub mod Stream
pub mod Mhash
pub mod Blocks
pub mod Sha256
pub mod Md5
pub mod Sha1
mod Examples
