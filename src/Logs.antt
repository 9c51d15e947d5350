-- ===== src/Logs.antt =====
-- apps/api/src/logs: Docker's log stream, its frames and lines, and the sessions of the clients.
pub mod Session
pub mod Frames
pub mod Lines
pub mod Service
pub mod Pipeline
