-- ===== src/Server.antt =====
-- http/src/server.cpp, linux/ev_epoll.cpp and ev/include/ev/evloop.h: the table of connections, the
-- event loop's table of weak pointers, and the kernel's epoll instance, which is a parameter.
pub mod Table
pub mod Epoll
pub mod World
pub mod Rx
pub mod Handlers
pub mod Sound
pub mod Settled
pub mod Arrival
pub mod Dispatched
pub mod Steps
pub mod Serving
pub mod Counts
pub mod Kept
pub mod Race
pub mod Answers
pub mod InParts
pub mod Events
pub mod Again
pub mod Whole
pub mod Content
pub mod Requests
pub mod Chunks
pub mod Shortfalls
pub mod Replies
pub mod Life
pub mod Loops
pub mod Stalled
pub mod Sent
