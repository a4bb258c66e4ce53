-- ===== src/Tcp.antt =====
-- The sensor-facing servers, backend/include/tcp_server.h and backend/src/tcp_server.cpp.
pub mod Frames
pub mod Session
