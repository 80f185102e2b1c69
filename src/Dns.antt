-- ===== src/Dns.antt =====
-- What zone.rs, protocol.rs, server.rs and dnssec.rs take from the crate hickory_proto.
-- Its structs and enums appear with the fields and the variants that the source names, and a last
-- variant stands for the rest. What the crate computes is a parameter: `DnsApi`.
pub mod Name
pub mod Rr
pub mod Op
