-- ===== src/UdpMany.antt =====
-- sandbox/udp-many/posix: a host that sends greetings to clients by unicast and by multicast.
pub mod ParsePort
pub mod Clients
pub mod Host
pub mod Delivery
