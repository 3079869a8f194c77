-- ===== src/Server/Again.antt =====
-- http/src/server.cpp and http/src/conn.cpp: a connection that is kept alive after a response.
use beemo.Common.{ℕ, ◌%◌, ◌^◌, true, false, List, ◌++◌, append_assoc, ok, ◌≡◌, refl, ap, ◌∙◌}
use beemo.Text.{Bytes, lacks}
use beemo.Http.Headers.{ParseCtx, crlf, parse_headers}
use beemo.Http.Msg.{Req, headers, content, has_err, init_req, is_parsing_headers}
use beemo.Http.ReqLine.{parse_req_line}
use beemo.Http.Conn.{Conn, reset_state}
use beemo.Http.Written.{parse_headers-write_req}
use beemo.Http.WrittenText.{NewFields, put_fields, write_fields, write_req, content_index}
use beemo.Server.Rx.{Env, rx_headers}
use beemo.Server.World.{init_conn}

pub write_req-append :
    (line : Bytes) (fs : List (Bytes × Bytes)) (rest more : Bytes)
    → write_req line fs rest ++ more ≡ write_req line fs (rest ++ more)
write_req-append line fs rest more =
    append_assoc line _ more
    ∙ ap (λ t. line ++ t)
        (append_assoc crlf _ more
          ∙ ap (λ t. crlf ++ t)
              (append_assoc (write_fields fs) _ more
                ∙ ap (λ t. write_fields fs ++ t) (append_assoc crlf rest more)))

-- The connection, with the request that was read.
abbrev read_as : Req → ℕ → Conn → Conn
read_as r i c = record c { req = r; parsed_to_idx = i % 2 ^ 32 }

rx_headers-write_req :
    (env : Env) (c : Conn) (line : Bytes) (fs : List (Bytes × Bytes)) (rest : Bytes) (r₁ : Req)
    → c.req ≡ init_req env.memory
    → c.io_rx ≡ write_req line fs rest
    → lacks 13 line ≡ true
    → parse_req_line line env.config.max_req_line_len (init_req env.memory) ≡ ok r₁
    → r₁.parse_state ≡ headers
    → has_err r₁ ≡ false
    → NewFields fs r₁.fields
    → rx_headers env c
      ≡ ok (
          read_as
            (record r₁ { parse_state = content; fields = put_fields fs r₁.fields })
            (content_index line fs rest)
            c)
unfolding rx_headers
rx_headers-write_req env c line fs rest r₁ new buffer free parsed state fine fields =
    let ctx : ParseCtx = record { start_idx = c.parsed_to_idx; config = env.config } in
    let flag : is_parsing_headers c.req ≡ true = rw new refl in
    let parse : parse_headers c.io_rx c.req ctx
        ≡ ok (
          record r₁ { parse_state = content; fields = put_fields fs r₁.fields },
          content_index line fs rest,
        ) =
      rw (buffer, new)
        (parse_headers-write_req line fs rest (init_req env.memory) r₁ ctx refl free parsed state
          fine fields) in
    rw (flag, parse) refl

-- The headers that a kept connection reads. Take a connection whose buffer
-- holds a written request and what came behind it: a request line that is accepted, and fields that
-- are new, in names that differ also in lower case, none of them "host". When it is reset after the
-- response and more bytes arrive, `parse_headers` reads the request that a new connection with the
-- same bytes reads, the first one, and not the next.
rx_headers-reset_state :
    (env : Env) (c : Conn) (line : Bytes) (fs : List (Bytes × Bytes)) (rest more : Bytes) (r₁ : Req)
    → c.io_rx ≡ write_req line fs rest
    → lacks 13 line ≡ true
    → parse_req_line line env.config.max_req_line_len (init_req env.memory) ≡ ok r₁
    → r₁.parse_state ≡ headers
    → has_err r₁ ≡ false
    → NewFields fs r₁.fields
    → let first = record r₁ { parse_state = content; fields = put_fields fs r₁.fields } in
      let at = content_index line fs (rest ++ more) in
      let new = record (init_conn env) { io_rx = c.io_rx ++ more } in
      let kept = record (reset_state env.memory env.status c) { io_rx = c.io_rx ++ more } in
      (rx_headers env new ≡ ok (read_as first at new))
      × (rx_headers env kept ≡ ok (read_as first at kept))
rx_headers-reset_state env c line fs rest more r₁ buffer free parsed state fine fields =
    let text = ap (λ t. t ++ more) buffer ∙ write_req-append line fs rest more in
    (
      rx_headers-write_req env _ line fs (rest ++ more) r₁ refl text free parsed state fine fields,
      rx_headers-write_req env _ line fs (rest ++ more) r₁ refl text free parsed state fine fields,
    )
