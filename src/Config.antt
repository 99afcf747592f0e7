-- ===== src/Config.antt =====
-- internal/config: the document, its validation and defaults, the precedence of the
-- command line's flags, and the host allowlist.
pub mod AllowedHost
pub mod Types
pub mod Bytes
pub mod Validate
pub mod Precedence
pub mod Redact
