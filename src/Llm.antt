-- ===== src/Llm.antt =====
-- The language model package (src/pf_core/llm): the response cache and its id resolvers.
pub mod Names
pub mod Prompts
pub mod Cache
pub mod SafeApply
pub mod Validate
mod Tests
