-- ===== src/Http/Request.antt =====
-- Requests as a client writes them, with a target in origin form and a host field, and how
-- http/src/parser.cpp reads them.
pub mod Line
pub mod Host
pub mod Read
pub mod Content
pub mod Behind
pub mod Whole
pub mod Served
pub mod Length
pub mod Chunked
use beemo.Common.{◌∷◌, ◌++◌}
use beemo.Text.{Bytes, codes}

-- `METHOD target HTTP/1.1`
abbrev pub request_line : Bytes → Bytes → Bytes
request_line method target = method ++ (b' ' ∷ (target ++ (b' ' ∷ codes "HTTP/1.1")))
