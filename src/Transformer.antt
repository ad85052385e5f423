-- ===== src/Transformer.antt =====
-- pkg/transformer/utils.go: what both transformers share.
pub mod Volume
pub mod Labels
pub mod Annotations
mod Tests
