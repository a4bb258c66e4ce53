-- ===== src/Simulator.antt =====
-- The sensor simulator, simulator/main.cpp.
pub mod Encode
pub mod Packet
pub mod Cracks
pub mod RoundTrip
pub mod Framing
pub mod Loss
pub mod Client
