-- ===== src/FrontEnd.antt =====
-- ReMoLON_FrontEnd: the authentication daemon and the manager of all visualization nodes.
pub mod Packets
pub mod VisualizationNode
pub mod NodeManager
pub mod User
pub mod SessionTracker
pub mod NodeInfo
pub mod UserManager
pub mod XmlBuilder
pub mod HttpActions
pub mod RequestManager
pub mod Answers
pub mod Service
pub mod Startup
