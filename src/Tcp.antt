-- ===== src/Tcp.antt =====
-- realm_core/src/tcp: the PROXY protocol and the choice of the remote of a connection.
pub mod Proxy
pub mod Connect
pub mod Middle
