-- ===== src/Util.antt =====
-- common/util.c: the EC's own C library. One child module per group of functions.
pub mod Memory
pub mod Divmod
pub mod Cond
pub mod Text
mod Tests
