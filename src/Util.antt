-- ===== src/Util.antt =====
-- util: helpers on paths and fingerprints.
pub mod Glob
pub mod Match
pub mod Text
pub mod Fallible
pub mod Chars
pub mod Fingerprint
