-- ===== src/App.antt =====
-- internal/app/app.go: what the program does before it starts to work.
pub mod Recovery
