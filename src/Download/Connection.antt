-- ===== src/Download/Connection.antt =====
-- include/download/Connection.h and source/download/Connection.cpp: one peer's connection. Its
-- children hold the state, the requests, the incoming messages and the event handlers.
pub mod State
pub mod Requests
pub mod Messages
pub mod Events
pub mod Keeping
pub mod Sending
pub mod Ends
mod Tests
