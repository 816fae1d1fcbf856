-- ===== src/Json.antt =====
-- src/json.c: the parser and the writer of JSON, in modules of their own.
pub mod Text
pub mod Parser
pub mod Writer
pub mod Plain
pub mod Steps
pub mod Termination
pub mod Typed
pub mod Runs
pub mod Brackets
pub mod Reads
pub mod RoundTrip
