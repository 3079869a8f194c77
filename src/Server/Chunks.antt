-- ===== src/Server/Chunks.antt =====
-- http/src/server.cpp: a request with chunked content, from its first event to its answer.
use beemo.Common.{
  ◌^◌, ◌<◌, false, List, [], ◌∷◌, ok, ◌≡◌, refl, ap, ◌∙◌, arith, length, is_empty, if-false,
}
use beemo.Text.{Bytes}
use beemo.Http.Msg.{Req}
use beemo.Http.Conn.{Conn}
use beemo.Http.Content.{parse_content}
use beemo.Http.Received.{joined}
use beemo.Http.Chunks.{AreChunks, write_chunks}
use beemo.Http.ChunkRound.{IsChunk, write_chunk}
use beemo.Http.Request.Behind.{behind}
use beemo.Http.Request.Whole.{Request, IsRequest, IsFor, content_at, read_headers}
use beemo.Http.Request.Chunked.{IsChunked, read_chunked, parse_content-chunked}
use beemo.Server.Epoll.{ev_out}
use beemo.Server.Rx.{Env}
use beemo.Server.InParts.{with_more}
use beemo.Server.Events.{rx_events}
use beemo.Server.Whole.{IsHandled, answered, on_rx_conn_done}
use beemo.Server.Requests.{Arrives, Arrives-HoldsRequest, rx_events-Arrives}

write_chunk_some :
    (digits chunk rest : Bytes)
    → IsChunk digits chunk
    → is_empty (write_chunk digits chunk rest) ≡ false
write_chunk_some [] chunk rest h = absurd (ground (arith, h.some_digit))
write_chunk_some (d ∷ ds) chunk rest h = refl

write_chunks_some : (l : List (Bytes × Bytes)) → AreChunks l → is_empty (write_chunks l []) ≡ false
write_chunks_some [] h = refl
write_chunks_some ((digits, chunk) ∷ l) (h, _, _) =
    write_chunk_some digits chunk (write_chunks l []) h

-- A request with chunked content is answered, if one event brings all the chunks. Take a connection and events as for
-- `rx_events-get`, with a request as there, but that its method may be any known one, and that a
-- field says that a transfer coding was applied, the chunked one alone. Behind the header section
-- stand written chunks, each with some data, and the chunk of size 0 that ends them, fewer than
-- 2 ^ 32 bytes in all; the last event brings all of them, and the fuel is greater than their number. If the
-- handler for the path and method gives some content and leaves no error when it is called with
-- the request that the header section says and the data of the chunks as its content, then `on_rx`
-- waits at each event but the last, and returns at the last with the mask for output, and with the
-- handler's response in the buffer for sending.
pub rx_events-write_chunks :
    (env : Env) (c : Conn) (q : Request) (l : List (Bytes × Bytes)) (given : Bytes)
    (bs : List Bytes) (r' : Req)
    → IsRequest q
    → IsFor q env.config
    → IsChunked q
    → AreChunks l
    → length l < env.fuel
    → length (write_chunks l []) < 2 ^ 32
    → Arrives env c q (write_chunks l []) bs
    → IsHandled env (read_chunked q env.memory l) r' given
    → rx_events env c bs
      ≡ ok (
        ev_out,
        answered env (with_more (joined bs) c) (content_at q (write_chunks l [])) r' given,
      )
rx_events-write_chunks env c q l given bs r' h f k chunks enough fits a handled =
    let raw = write_chunks l [] in
    let text : behind raw ≡ raw = if-false _ _ _ (write_chunks_some l chunks) in
    rx_events-Arrives env c q raw bs h a
    ∙ on_rx_conn_done env (with_more (joined bs) c) q raw (read_chunked q env.memory l) r' given h
        (Arrives-HoldsRequest env c q raw bs a)
        (ap (λ t. parse_content env.fuel t (read_headers q env.memory) env.config) text
          ∙ parse_content-chunked q env.fuel env.memory env.config l h f k enough chunks fits)
        refl refl handled
