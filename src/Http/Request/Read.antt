-- ===== src/Http/Request/Read.antt =====
-- http/src/parser.cpp: `parse_headers` on a request with a host field.
use beemo.Common.{
  ℕ, suc, ◌+◌, true, false, not, ◌&&◌, List, [], ◌∷◌, ◌++◌, ok, ◌≡◌, refl, ap, ◌∙◌, sym, arith,
  ◌==◌, length, append_assoc, length-append, all, &&-true,
}
use beemo.Text.{Bytes, codes, equal, find_not, lacks}
use beemo.Utils.{lowercase_str}
use beemo.Uri.Grammar.{host_char}
use beemo.Http.Fields.{contains, put_field}
use beemo.Http.Msg.{
  Req, origin, content, headers, host_header_token, in_headers, in_start_line, has_err,
}
use beemo.Http.ReqLine.{parse_req_line}
use beemo.Http.FieldLine.{parse_host, parse_host_for, parse_field_line}
use beemo.Http.Headers.{ParseCtx, crlf, parse_headers}
use beemo.Http.WrittenText.{
  IsField, write_field, write_line, write_fields, put_fields, NewFields, find_str-hit,
  range_between, length-write_fields, write_req, content_index,
}
use beemo.Http.Written.{parse_field_line_store, header_loop-write_line, header_loop-write_fields}
use beemo.Http.Request.Line.{check_uri_fine}
use beemo.Http.Request.Host.{
  IsHost, host_text, host_text-lacks_return, host_uri, parse_uri-host_text,
}

host_char-space : (c : ℕ) → host_char c ≡ true → (c == b' ') ≡ false
unfolding host_char
host_char-space c h = ground arith

abbrev pub host_name : Bytes
host_name = codes "Host"

module _ (c : ℕ) (x : Bytes) (d : ℕ) (ds : Bytes) (h : IsHost c x d ds) where
  abbrev text : Bytes
  text = host_text c x d ds

  host-IsField : IsField host_name text
  unfolding find_not
  host-IsField = record {
    name_colon = refl;
    name_return = refl;
    value_return = host_text-lacks_return c x d ds h;
    value_first =
        let plain = host_char-space c ((&&-true (host_char c) (all host_char x) h.name).0) in
        rw plain refl;
  }

  -- The request behind its host field.
  abbrev pub with_host : Req → Req
  with_host r = record r {
    uri = host_uri c x d ds h r.uri;
    fields = put_field host_header_token text r.fields;
  }

  parse_host_for-origin :
      (r : Req) → parse_host_for origin text r ≡ ok (record r { uri = host_uri c x d ds h r.uri })
  unfolding parse_host_for
  parse_host_for-origin r =
      rw (parse_uri-host_text c x d ds h r.uri)
        (ap ok (check_uri_fine (record r { uri = host_uri c x d ds h r.uri }) refl))

  parse_host_origin :
      (r : Req)
      → r.target_form ≡ origin
      → parse_host text r ≡ ok (record r { uri = host_uri c x d ds h r.uri })
  unfolding parse_host
  parse_host_origin r form = ap (λ f. parse_host_for f text r) form ∙ parse_host_for-origin r

  parse_field_line-host :
      (r : Req)
      → r.target_form ≡ origin
      → contains host_header_token r.fields ≡ false
      → parse_field_line (write_field host_name text) r ≡ ok (with_host r)
  unfolding lowercase_str equal
  parse_field_line-host r form new =
      parse_field_line_store host_name text r host-IsField new
      ∙ parse_host_origin (record r { fields = put_field host_header_token text r.fields }) form

  -- A written request with a host field and then fields that are new: the address is stored from the
  -- host field.
  pub parse_headers-with_host :
      (line : Bytes) (fs : List (Bytes × Bytes)) (rest : Bytes) (r r₁ : Req) (ctx : ParseCtx)
      → in_start_line r.parse_state ≡ true
      → lacks 13 line ≡ true
      → parse_req_line line ctx.config.max_req_line_len r ≡ ok r₁
      → r₁.parse_state ≡ headers
      → r₁.target_form ≡ origin
      → has_err r₁ ≡ false
      → contains host_header_token r₁.fields ≡ false
      → NewFields fs (with_host r₁).fields
      → parse_headers (write_req line ((host_name, text) ∷ fs) rest) r ctx
        ≡ ok (
          record (with_host r₁) {
            parse_state = content;
            fields = put_fields fs (with_host r₁).fields;
          },
          content_index line ((host_name, text) ∷ fs) rest,
        )
  unfolding parse_headers
  parse_headers-with_host line fs rest r r₁ ctx start free parsed state form fine none new =
      let hosted = (host_name, text) ∷ fs in
      let raw = write_req line hosted rest in
      let others = write_fields hosted ++ (crlf ++ rest) in
      let behind = write_fields fs ++ (crlf ++ rest) in
      let size = length-append line (crlf ++ others) in
      let size' = length-append crlf others in
      let size'' = length-append (write_fields hosted) (crlf ++ rest) in
      let before = line ++ crlf in
      let at = length-append line crlf in
      let going : in_headers r₁.parse_state && not (has_err r₁) ≡ true = rw (state, fine) refl in
      let split : raw ≡ before ++ (write_line (host_name, text) ++ behind) =
        sym (append_assoc line crlf others)
        ∙ ap (λ t. before ++ t)
            (append_assoc (write_line (host_name, text)) (write_fields fs) (crlf ++ rest)) in
      let host_size = length-append (write_field host_name text) crlf in
      let fuel : length raw + 1 ≡ suc (length raw) = omega arith in
      rw
        (
          start,
          find_str-hit line others free,
          range_between [] line (crlf ++ others) 0 (length line) refl (omega arith),
          parsed,
          fuel,
        )
        (header_loop-write_line (length raw) host_name text before behind raw r₁ (with_host r₁)
            (length line + 2) ctx.start_idx going host-IsField at split
            (parse_field_line-host r₁ form none)
          ∙ header_loop-write_fields (length raw) fs (before ++ write_line (host_name, text)) rest
              raw (with_host r₁) (length line + 2 + length (write_field host_name text) + 2)
              ctx.start_idx (length line + 2 + length (write_fields hosted)) going new
              (omega (arith, length-append before (write_line (host_name, text))))
              (omega (arith, length-write_fields hosted))
              (split ∙ sym (append_assoc before (write_line (host_name, text)) behind))
              (omega (arith, length-append (write_line (host_name, text)) (write_fields fs))))
