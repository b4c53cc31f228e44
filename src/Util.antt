-- ===== src/Util.antt =====
-- utils/ and stdlib_c/: byte buffers, C strings and number conversion.
pub mod CString
pub mod Mem
pub mod Strings
pub mod Numbers
pub mod Bits
