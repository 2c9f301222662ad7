-- ===== src/Ipc.antt =====
-- crates/harbormaster/src/ipc/mod.rs: the errors of bounded Unix IPC.
pub mod Framing
pub mod Connection

pub data IpcError : Type 0 where
  unsafe_path permission_denied resource_exhausted frame_too_large invalid_frame : IpcError
  truncated_frame deadline_exceeded closed io : IpcError
