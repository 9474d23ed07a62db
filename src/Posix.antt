-- ===== src/Posix.antt =====
-- lib/dirtynet/detail/posix: the native side of the library. lib/dirtynet/detail/native_*.hh name
-- these classes for the public side.
pub mod Port
pub mod Ip
pub mod Endpoint
pub mod UdpSocket
mod Tests
