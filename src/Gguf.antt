-- ===== src/Gguf.antt =====
-- internal/gguf/gguf.go: the header of a model file.
pub mod Reader
pub mod Value
pub mod Parse
pub mod Budget
mod Samples
