-- ===== src/Server/Documents.antt =====
-- internal/server/handlers/document.go: the HTTP handlers of documents.
pub mod Request
pub mod Handler
pub mod Served
