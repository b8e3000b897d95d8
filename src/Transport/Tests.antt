-- ===== src/Transport/Tests.antt =====
-- The theorems on the transport at concrete frames, configurations and connections.
mod Memory
mod Frames
mod Calls
