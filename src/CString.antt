-- ===== src/CString.antt =====
-- C strings and what the bridge calls on them: strlen, strncmp, atoi, and the decimal digits of
-- `%d`. A string is the list of its bytes, without the NUL that ends it.
pub mod Prefix
pub mod Decimal
pub mod Digits
pub mod Defs
