-- ===== src/Tests.antt =====
-- The theorems at concrete inputs, on the JSON trees of `Value.Tree`.
pub mod Fixtures
pub mod Documents
pub mod Components
pub mod Sharedb
pub mod Texts
pub mod Codec
pub mod Transforms
pub mod Wire
pub mod Server
pub mod Protocol
pub mod Difference
pub mod Subscribers
