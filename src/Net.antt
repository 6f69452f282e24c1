-- ===== src/Net.antt =====
-- The network stack of kernel/src/net: bytes, packets, and the protocols over them.
pub mod Bytes
pub mod Packet
pub mod Checksum
pub mod Eth
pub mod Ip
pub mod Udp
pub mod Ports
pub mod Arp
pub mod Dhcp
pub mod Lease
pub mod Builder
pub mod Device
pub mod Registry
mod Tests
