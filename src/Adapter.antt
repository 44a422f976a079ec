-- ===== src/Adapter.antt =====
-- adapter/displayxr_mcp.c: the adapter, a bridge between the agent's standard streams and a server.
-- Bridge is its two pump threads, Delivery their composition with the server's reader of frames, and
-- Arguments the command line and the choice of the server.
pub mod Bridge
pub mod Delivery
pub mod Arguments
mod Tests
