-- ===== src/Segments/Tests.antt =====
-- A segment whose id is taken.
