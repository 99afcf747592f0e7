-- ===== src/TestTarget.antt =====
-- internal/testtarget: the server that tests send their requests to.
pub mod RateLimit
