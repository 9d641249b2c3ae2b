-- ===== src/Ipam.antt =====
-- context/ip_allocator.go: the addresses that the SMF gives to UEs. Addr is the arithmetic on
-- addresses, Pool the pool of offsets into a network, Allocator the two together with the static
-- addresses of some subscribers; the other children prove what they promise.
pub mod Addr
pub mod Pool
pub mod Allocator
pub mod Offsets
pub mod Search
pub mod Bounds
pub mod History
pub mod Serve
pub mod Static
pub mod Networks
