-- ===== src/Alerts.antt =====
-- The alert manager, backend/include/alert_manager.h and backend/src/alert_manager.cpp.
pub mod Worker
pub mod Checks
pub mod Module
