-- ===== src/Util/RandomData/Tests.antt =====
-- A string that repeats a piece of half its length.
