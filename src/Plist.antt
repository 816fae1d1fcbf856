-- ===== src/Plist.antt =====
-- src/plist.c: tags and text, the parser and the writer of property lists.
pub mod Text
pub mod Parser
pub mod Writer
pub mod Termination
pub mod Typed
pub mod Escapes
mod Leaves
mod Tags
mod Rounds
mod Reads
pub mod RoundTrip
