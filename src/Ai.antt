-- ===== src/Ai.antt =====
-- pkg/ai: the decorators around the providers of language models.
pub mod Breaker
pub mod Provider
pub mod RateLimit
pub mod EmbeddingCache
