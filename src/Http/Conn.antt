-- ===== src/Http/Conn.antt =====
-- http/src/conn.cpp, with `io_buf` of linux/io_buf.cpp and transport/include/transport/io_buf.h. What
-- the socket calls return is given as a list, one entry for each call.
use beemo.Common.{
  ℕ, zero, suc, ◌+◌, ◌%◌, ◌^◌, ◌>>=◌, Bool, false, List, [], ◌∷◌, ◌++◌, Result, ok, unfinished,
  ◌==◌, ltb, if◌then◌else◌, length, take, drop,
}
use beemo.Text.{Bytes}
use beemo.Http.Msg.{Req, Memory, init_req}
use beemo.Http.Resp.{Resp, init_resp, to_str}

-- The buffer for sending. Beyond what was written it holds what the memory held, which is not read.
pub record IoBuf : Type 0 where
  pub buf_len : ℕ
  pub buf : Bytes
  pub bytes_tx : ℕ
  pub bytes_to_tx : ℕ
  pub bytes_rx : ℕ

abbrev pub default_buf_len : ℕ
default_buf_len = 1024

abbrev pub init_buf : ℕ → IoBuf
init_buf n = record { buf_len = n; buf = []; bytes_tx = 0; bytes_to_tx = 0; bytes_rx = 0 }

-- The bytes that `strncpy(buf, data, n)` writes: up to the first zero byte, and zeros behind it.
unfoldable pub strncpy : ℕ → Bytes → Bytes
strncpy zero s = []
strncpy (suc n) [] = 0 ∷ strncpy n []
strncpy (suc n) (c ∷ s) = if c == 0 then 0 ∷ strncpy n [] else c ∷ strncpy n s

abbrev smaller : ℕ → ℕ → ℕ
smaller a b = if ltb b a then b else a

-- For a buffer of type TX, as every one that is written to. The number is an `unsigned int`.
unfoldable pub write_buf : Bytes → IoBuf → IoBuf
unfolding strncpy
write_buf s io =
    let n = smaller (length s) io.buf_len % 2 ^ 32 in
    record io { buf = strncpy n s; bytes_to_tx = n; bytes_tx = 0; bytes_rx = 0 }

-- The members that matter to the transfer; `keep_alive` is the bit `conn_keep_alive` of the status.
pub record Conn : Type 0 where
  pub keep_alive : Bool
  pub parsed_to_idx : ℕ
  pub io_rx : Bytes
  pub io_tx : IoBuf
  pub req : Req
  pub resp : Resp

abbrev pub reset_state : Memory → ℕ → Conn → Conn
reset_state memory status c = record c {
  parsed_to_idx = 0;
  req = init_req memory;
  resp = init_resp status;
}

unfoldable pub prepare_tx_bytes : Bytes → Conn → Conn
unfolding write_buf
prepare_tx_bytes tx c =
    let io = if ltb c.io_tx.buf_len (length tx) then init_buf (length tx % 2 ^ 32) else c.io_tx in
    record c { io_tx = write_buf tx io }

abbrev pub prepare_tx : Conn → Conn
prepare_tx c = prepare_tx_bytes (to_str c.resp) c

pub data IoStatus : Type 0 where
  complete partial failed : IoStatus

-- What one call of `recv` gives: some bytes, the end, no bytes for now, or an error.
pub data Rx : Type 0 where
  received : Bytes → Rx
  closed would_block error : Rx

-- `io_rx_.append(rx_io->buf, rx_io->bytes_rx)`
abbrev append_rx : Bytes → Conn → Conn
append_rx buf c = record c { io_rx = c.io_rx ++ buf }

-- The two loops, one call of `recv` for each round: a buffer that is full is appended, and the next
-- one begun. The list ends before the loop does only if it is no whole run.
unfoldable pub rx_loop : List Rx → Bytes → Conn → Result (IoStatus × Conn)
rx_loop [] buf c = unfinished
rx_loop (received b ∷ rs) buf c =
    let next = rx_loop rs b (append_rx buf c) in
    let same = rx_loop rs (buf ++ b) c in if ltb (length buf) default_buf_len then same else next
rx_loop (closed ∷ rs) buf c = ok (complete, record (append_rx buf c) { keep_alive = false })
rx_loop (would_block ∷ rs) buf c = ok (partial, append_rx buf c)
rx_loop (error ∷ rs) buf c =
    if ltb (length buf) default_buf_len then ok (failed, c) else ok (failed, append_rx buf c)

unfoldable pub do_rx : List Rx → Conn → Result (IoStatus × Conn)
unfolding rx_loop
do_rx rs c = rx_loop rs [] c

-- What one call of `send` gives: how many bytes it took, no room for now, or an error.
pub data Tx : Type 0 where
  sent : ℕ → Tx
  no_room broken : Tx

abbrev pub add_sent : ℕ → Conn → Conn
add_sent n c = record c { io_tx = record c.io_tx { bytes_tx = c.io_tx.bytes_tx + n } }

-- The bytes that a call takes, of those from `buf + bytes_tx` on.
abbrev pub piece : ℕ → Conn → Bytes
piece n c = take n (drop c.io_tx.bytes_tx c.io_tx.buf)

abbrev pub Sending : Type 0
Sending = IoStatus × Conn × Bytes

abbrev before_rest : Bytes → Result Sending → Result Sending
before_rest s m = m >>= λ (status, c, rest). ok (status, c, s ++ rest)

abbrev pub has_more : Conn → Bool
has_more c = ltb c.io_tx.bytes_tx c.io_tx.bytes_to_tx

-- The loop, with the bytes that the calls took.
unfoldable pub do_tx : List Tx → Conn → Result Sending
do_tx [] c = if has_more c then unfinished else ok (complete, c, [])
do_tx (sent n ∷ ts) c =
    let rest = before_rest (piece n c) (do_tx ts (add_sent n c)) in
    if has_more c then rest else ok (complete, c, [])
do_tx (no_room ∷ ts) c = if has_more c then ok (partial, c, []) else ok (complete, c, [])
do_tx (broken ∷ ts) c = if has_more c then ok (failed, c, []) else ok (complete, c, [])
