-- ===== src/Warmup.antt =====
-- warmup/: the exercises on sorted points and on the count of words.
pub mod Points
pub mod Words
