-- ===== src/Udp.antt =====
-- realm_core/src/udp: the packets of a batch and the sockets of the associations.
pub mod SockMap
pub mod Registry
pub mod Middle
