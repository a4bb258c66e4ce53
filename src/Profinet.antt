-- ===== src/Profinet.antt =====
-- The PROFINET parser, backend/include/profinet_parser.h and backend/src/profinet_parser.cpp.
pub mod Reads
pub mod Cursor
pub mod Packet
pub mod Payload
pub mod Acknowledge
