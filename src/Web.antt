-- ===== src/Web.antt =====
-- packages/without_web: the router's path patterns and its trie.
pub mod Converters
pub mod Patterns
pub mod Trie
