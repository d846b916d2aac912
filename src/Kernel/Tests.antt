-- ===== src/Kernel/Tests.antt =====
-- Registrations in the state at the start.
