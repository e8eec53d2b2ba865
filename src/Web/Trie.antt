-- ===== src/Web/Trie.antt =====
-- packages/without_web/src/without_web/trie.py
pub mod Nodes
pub mod Build
pub mod Walk
pub mod Paths
pub mod Routing
mod Samples
