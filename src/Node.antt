-- ===== src/Node.antt =====
-- ReMoLON: the manager of one visualization node.
pub mod Packets
pub mod SessionManager
pub mod Setup
pub mod Launch
