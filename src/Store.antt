-- ===== src/Store.antt =====
-- internal/store: the Bloom filter, the hold, and the stores of messages, contacts and channels.
pub mod Bloom
pub mod Files
pub mod First
pub mod Contacts
pub mod History
pub mod Inbox
pub mod Groups
pub mod Channels
pub mod Hold
