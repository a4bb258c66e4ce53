-- ===== src/Pipeline.antt =====
-- The modules that the queues connect: backend/include/module_base.h, backend/include/modules and
-- `MonitorServer::wire_pipeline` of backend/src/main.cpp. A queue is a number, its contents a list; a
-- null pointer is `none`.
pub mod Queues
pub mod Router
pub mod System
pub mod Wiring
pub mod Delivery
