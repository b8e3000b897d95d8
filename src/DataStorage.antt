-- ===== src/DataStorage.antt =====
-- apps/data_storage.
mod Handlers
mod Replies
mod Reach
mod Purge
mod Tests
