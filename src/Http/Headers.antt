-- ===== src/Http/Headers.antt =====
-- http/src/parser.cpp: `parse_headers`.
use beemo.Common.{
  ℕ, zero, suc, ◌+◌, true, false, not, ◌&&◌, Option, none, some, Result, ok, unfinished, ◌>>=◌,
  ◌==◌, ltb, if◌then◌else◌, length,
}
use beemo.Text.{Bytes, codes, find_str, find_str_from, range}
use beemo.Http.Config.{Config}
use beemo.Http.Err.{bad_req_handler}
use beemo.Http.Msg.{Req, content, in_headers, in_start_line, has_err, set_err}
use beemo.Http.ReqLine.{parse_req_line}
use beemo.Http.FieldLine.{parse_field_line}

abbrev pub crlf : Bytes
crlf = codes "\r\n"

pub record ParseCtx : Type 0 where
  pub start_idx : ℕ
  pub config : Config

-- The index after the empty line; the line itself is passed over only if something follows it.
abbrev pub content_start : Bytes → ℕ → ℕ
content_start raw line_start =
    if ltb (line_start + 2) (length raw) then line_start + 2 else line_start

-- The loop, on fuel, with the index that the function returns. A line has been found or not, and
-- then the rest of the round.
unfoldable pub header_loop : ℕ → Bytes → Req → ℕ → ℕ → Result (Req × ℕ)
header_loop zero raw r line_start up_to = unfinished
header_loop (suc n) raw r line_start up_to =
    if in_headers r.parse_state && not (has_err r)
    then (elim (find_str_from crlf raw line_start) [
      | none ↦ ok (r, line_start)
      | some line_end ↦ elim (line_end == line_start) [
        | true ↦ ok (record r { parse_state = content }, content_start raw line_start)
        | false ↦
            ◌>>=◌ (range raw line_start line_end) λ line.
              ◌>>=◌ (parse_field_line line r) λ r'. header_loop n raw r' (line_end + 2) up_to
      ]
    ])
    else ok (r, up_to)

unfoldable pub start_headers : Bytes → Req → ParseCtx → Option ℕ → Result (Req × ℕ)
start_headers raw r ctx none = ok (set_err r bad_req_handler, ctx.start_idx)
start_headers raw r ctx (some line_end) = do
  line ← range raw 0 line_end
  r' ← parse_req_line line ctx.config.max_req_line_len r
  header_loop (length raw + 1) raw r' (line_end + 2) ctx.start_idx

-- Every round but the last passes over a line end, so the length is fuel enough.
unfoldable pub parse_headers : Bytes → Req → ParseCtx → Result (Req × ℕ)
unfolding header_loop start_headers
parse_headers raw r ctx =
    if in_start_line r.parse_state
    then start_headers raw r ctx (find_str crlf raw)
    else header_loop (length raw + 1) raw r ctx.start_idx ctx.start_idx
