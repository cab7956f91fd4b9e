-- ===== src/Security/Random/Range.antt =====
-- The draws of `random_range`.
