-- ===== src/Codec.antt =====
-- What the program uses of the packages `encoding/base64`, `encoding/base32`, `encoding/binary`,
-- `hash/crc32` and `net/url`.
pub mod Base64
pub mod Base32
pub mod Int64
pub mod Query
pub mod Crc32
