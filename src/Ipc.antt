-- ===== src/Ipc.antt =====
-- wv_ipc/wave_ipc_core.c: the messages of the daemon's socket protocol.
pub mod Message
pub mod Header
pub mod Multi
pub mod Socket
pub mod Tests
