-- ===== src/Profile.antt =====
-- internal/profile: load profiles compiled into segments of constant rate.
pub mod Types
pub mod Compile
