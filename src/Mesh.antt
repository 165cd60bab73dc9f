-- ===== src/Mesh.antt =====
-- internal/mesh: the parts of a node that exchange messages with other nodes.
pub mod Peer
pub mod Pool
pub mod Node
pub mod Transport
pub mod Udp
pub mod Dns
pub mod Discovery
pub mod RelayClient
