-- ===== src/Web/Tests.antt =====
-- The page's parts on a few inputs.
mod Shown
mod Reads
