-- ===== src/Http.antt =====
-- The http library: messages, the request parser, transfer codings.
pub mod Fields
pub mod Config
pub mod Err
pub mod Msg
pub mod ReqLine
pub mod FieldLine
pub mod Headers
pub mod Chunked
pub mod Content
pub mod Body
pub mod Digits
pub mod ChunkRound
pub mod Chunks
pub mod Endless
pub mod MediaType
pub mod Resp
pub mod Routing
pub mod Served
pub mod OpenEnded
pub mod Conn
pub mod Received
pub mod Ends
pub mod More
pub mod FieldState
pub mod Resume
pub mod Stopped
pub mod WrittenText
pub mod Written
pub mod Request
