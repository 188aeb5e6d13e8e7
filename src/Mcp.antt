-- ===== src/Mcp.antt =====
-- crates/mcp-server: the server that lets a client of the Model Context Protocol call the daemon.
pub mod Protocol
pub mod Tools
pub mod Create
pub mod Server
