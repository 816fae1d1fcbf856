-- ===== src/Util.antt =====
-- src/util.c: the readers of numbers and the UTF-8 writer that the parsers share. A pointer with a
-- length is the list of the bytes in that range.
pub mod Decimal
pub mod Hex
pub mod Utf8
pub mod Number
