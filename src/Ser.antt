-- ===== src/Ser.antt =====
-- core/src/ser.rs: the binary format.
pub mod Types
pub mod Stream
pub mod Writer
pub mod Reader
pub mod Source
pub mod BinReader
pub mod StreamingReader
pub mod Laws
pub mod BinLaws
pub mod StreamingLaws
pub mod Fields
pub mod Coding
pub mod FieldCoding
pub mod Counting
pub mod BigEndian
pub mod Examples
