-- ===== src/Public.antt =====
-- lib/dirtynet: the public classes, which hold a native object each.
pub mod Port
pub mod Ip
pub mod Endpoint
pub mod UdpSocket
pub mod Laws
pub mod Value
mod Tests
