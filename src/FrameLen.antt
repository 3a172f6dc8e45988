-- ===== src/FrameLen.antt =====
-- canframelen.c: how many bits a frame takes on the wire.
pub mod Crc
pub mod Stuff
pub mod Length
mod Tests
