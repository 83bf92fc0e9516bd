-- ===== src/Topics.antt =====
-- src/broker/topics/: matching of topic filters, and the subscription trie.
pub mod Filter
pub mod Trie
