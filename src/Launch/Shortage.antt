-- ===== src/Launch/Shortage.antt =====
-- A pool without workers.
