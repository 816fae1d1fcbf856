-- ===== src/Tests.antt =====
-- Runs on concrete inputs, and the properties at inputs that meet their hypotheses.
mod Bytes
mod Files
mod Ini
mod Json
mod Memory
mod Plist
mod Sorting
mod Values
