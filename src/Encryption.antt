-- ===== src/Encryption.antt =====
-- src/encryption: the keys, the cipher of file names, the container of file bodies, and the
-- escaping of paths in URLs.
pub mod PathCipher
pub mod Content
pub mod Url
