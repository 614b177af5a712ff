-- ===== src/Ingest.antt =====
-- internal/ingest: from lines, requests and files to the channel of events.
pub mod Channel
pub mod Fields
pub mod Csv
pub mod Plain
pub mod Parser
pub mod Lines
pub mod Listen
pub mod Rest
pub mod Tail
