-- ===== src/Names.antt =====
-- The names that the program accepts from outside: sanitizeWorkspaceName (upload.go) and
-- sanitizePushTitle (push.go).
pub mod File
pub mod Title
