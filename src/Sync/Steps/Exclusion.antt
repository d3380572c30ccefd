-- ===== src/Sync/Steps/Exclusion.antt =====
-- A lock is held by one task at a time, if the clock does not interrupt the change of its value.
