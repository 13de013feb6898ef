-- ===== src/Util.antt =====
-- ReMoLON_Util: the socket library that both programs share.
pub mod ByteBuffer
pub mod Packet
pub mod PacketHandler
pub mod Config
pub mod Connection
pub mod Client
pub mod ThreadPool
pub mod Server
pub mod SelectorThread
