-- ===== src/Http/Request/Whole.antt =====
-- A whole request for this server, as it is written and as http/src/parser.cpp reads it.
use beemo.Common.{
  &&-true, ℕ, true, false, not, ◌&&◌, ◌||◌, List, [], ◌∷◌, ◌++◌, none, pos, ok, ◌≡◌, refl, ap, ◌∙◌,
  ◌==◌, if-true, all, all-append, append-nil, ◌+◌,
}
use beemo.Text.{is_ascii, Bytes, codes, equal, find_str, read_digits, lacks}
use beemo.Uri.Path.{is_path, is_path-is_ascii}
use beemo.Uri.Grammar.{query_char, query_char-is_ascii}
use beemo.Utils.Pattern.{all-imp}
use beemo.Uri.Origin.{parse_uri_origin, parse_uri_origin_path}
use beemo.Uri.{flag_path, flag_query}
use beemo.Uri.Parser.{parse_uri}
use beemo.Keyword.{keyword_val}
use beemo.Http.Config.{Config}
use beemo.Http.Fields.{Fields, find_field, contains, put_field}
use beemo.Http.Msg.{
  Req, Memory, init_uri, init_req, origin, content, complete, headers, method_invalid,
  host_header_token, content_type_token, content_encoding_token,
}
use beemo.Http.ReqLine.{parse_req_line}
use beemo.Http.Headers.{ParseCtx, parse_headers}
use beemo.Http.WrittenText.{put_fields, NewFields, write_req, content_index}
use beemo.Http.Request.{request_line}
use beemo.Http.Request.Line.{parse_req_line-request_line}
use beemo.Http.Request.Host.{IsHost, host_text}
use beemo.Http.Request.Read.{host_name, parse_headers-with_host}
use beemo.Http.Request.Content.{lacks_name, default_media_type, default_media_subtype}

-- A method, a path without its first '/', a query with its '?' or nothing, a host
-- "name:port", whose name and port are not empty, and the fields behind it.
pub record Request : Type 0 where
  pub method : Bytes
  pub path : Bytes
  pub query : Bytes
  pub name_first : ℕ
  pub name_rest : Bytes
  pub port_first : ℕ
  pub port_rest : Bytes
  pub fields : List (Bytes × Bytes)

-- Nothing, or a '?' and bytes that a query may have.
abbrev pub IsQuery : Bytes → Type 0
IsQuery [] = Unit
IsQuery (c ∷ cs) = (c ≡ b'?') × (all query_char (c ∷ cs) ≡ true)

-- A target in origin form is stored as its path and its query.
parse_uri_target :
    (m : Memory) (p qs : Bytes)
    → find_str (codes "//") (b'/' ∷ p ++ qs) ≡ none
    → lacks b'?' p ≡ true
    → is_path (b'/' ∷ p) ≡ true
    → IsQuery qs
    → parse_uri (init_uri m) (b'/' ∷ p ++ qs) (flag_path + flag_query)
      ≡ ok (record (init_uri m) { path = b'/' ∷ p; query = qs })
parse_uri_target m p [] h k path query =
    let bare = append-nil p in
    rw bare (
      parse_uri_origin_path (init_uri m) p (rw bare at h) k (is_path-is_ascii (b'/' ∷ p) path)
      ∙ ap ok (if-true _ _ _ path))
parse_uri_target m p (c ∷ qs) h k path (mark, good) = rw mark (
    parse_uri_origin (init_uri m) p qs (rw mark at h) k (is_path-is_ascii (b'/' ∷ p) path) (
      all-imp query_char is_ascii qs query_char-is_ascii
        (&&-true (query_char b'?') (all query_char qs) (rw mark at good)).1)
    ∙ rw (path, rw mark at good) refl)

module _ (q : Request) where
  abbrev pub name : Bytes
  name = q.name_first ∷ q.name_rest

  abbrev pub port : ℕ
  port = read_digits 0 (q.port_first ∷ q.port_rest)

  abbrev pub host : Bytes
  host = host_text q.name_first q.name_rest q.port_first q.port_rest

  abbrev pub target : Bytes
  target = b'/' ∷ q.path ++ q.query

  -- The bytes, with what follows the header section.
  abbrev pub write_request : Bytes → Bytes
  write_request rest = write_req (request_line q.method target) ((host_name, host) ∷ q.fields) rest

  -- What is stored from the fields.
  abbrev pub stored : Fields
  stored = put_fields q.fields ((host_header_token, host) ∷ [])

  -- A known method, a well-formed path, a query or none, a host, and fields with new names, none of them for a
  -- content coding or a content type.
  pub record IsRequest : Type 0 where
    pub method_space : lacks b' ' q.method ≡ true
    pub method_return : lacks 13 q.method ≡ true
    pub method_known : (keyword_val q.method == method_invalid) ≡ false
    pub path_space : lacks b' ' target ≡ true
    pub path_return : lacks 13 target ≡ true
    pub path_mark : lacks b'?' q.path ≡ true
    pub path_double : find_str (codes "//") target ≡ none
    pub path_good : is_path (b'/' ∷ q.path) ≡ true
    pub query_good : IsQuery q.query
    pub host_good : IsHost q.name_first q.name_rest q.port_first q.port_rest
    pub fields_new : NewFields q.fields ((host_header_token, host) ∷ [])
    pub fields_coding : lacks_name content_encoding_token q.fields ≡ true
    pub fields_type : lacks_name content_type_token q.fields ≡ true

  -- The host is this server's, by its address or its name, and the port is the one it listens on.
  pub record IsFor (config : Config) : Type 0 where
    pub port_same : port ≡ config.listening_port
    pub name_same : (equal name config.listening_ip || equal name config.listening_reg_name) ≡ true

  -- The request that the handler gets, with its content length and its content.
  abbrev pub read_request : Memory → ℕ → Bytes → Req
  read_request m n body = record (init_req m) {
    target_form = origin;
    parse_state = complete;
    version = record { major = pos 1; minor = pos 1 };
    method = keyword_val q.method;
    uri = record (init_uri m) {
      ipv4 = name;
      reg_name = name;
      port = pos port;
      path = b'/' ∷ q.path;
      query = q.query;
    };
    fields = put_field content_type_token (codes "application/json") stored;
    content_len = n;
    media_type = default_media_type;
    media_subtype = default_media_subtype;
    body = body;
  }

  -- The request behind its header section.
  abbrev pub read_headers : Memory → Req
  read_headers m = record (init_req m) {
    target_form = origin;
    parse_state = content;
    version = record { major = pos 1; minor = pos 1 };
    method = keyword_val q.method;
    uri = record (init_uri m) {
      ipv4 = name;
      reg_name = name;
      port = pos port;
      path = b'/' ∷ q.path;
      query = q.query;
    };
    fields = stored;
  }

  -- Where the content is read from.
  abbrev pub content_at : Bytes → ℕ
  content_at rest = content_index (request_line q.method target) ((host_name, host) ∷ q.fields) rest

  parse_line :
      (n : ℕ) (m : Memory)
      → IsRequest
      → parse_req_line (request_line q.method target) n (init_req m)
        ≡ ok (record (init_req m) {
          target_form = origin;
          parse_state = headers;
          version = record { major = pos 1; minor = pos 1 };
          method = keyword_val q.method;
          uri = record (init_uri m) { path = b'/' ∷ q.path; query = q.query };
        })
  parse_line n m h =
      parse_req_line-request_line q.method (q.path ++ q.query) n (init_req m)
        (record (init_uri m) { path = b'/' ∷ q.path; query = q.query }) h.method_space
        h.method_known h.path_space
        (parse_uri_target m q.path q.query h.path_double h.path_mark h.path_good h.query_good) refl

  line_return : IsRequest → lacks 13 (request_line q.method target) ≡ true
  line_return h =
      let p = λ (x : ℕ). not (x == 13) in
      all-append p q.method (b' ' ∷ (target ++ (b' ' ∷ codes "HTTP/1.1")))
      ∙ ap (λ b. all p q.method && b) (all-append p target (b' ' ∷ codes "HTTP/1.1"))
      ∙ rw (h.method_return, h.path_return) refl

  pub parse_headers-write_request :
      (rest : Bytes) (m : Memory) (ctx : ParseCtx)
      → IsRequest
      → parse_headers (write_request rest) (init_req m) ctx ≡ ok (read_headers m, content_at rest)
  unfolding contains find_field put_field
  parse_headers-write_request rest m ctx h =
      parse_headers-with_host q.name_first q.name_rest q.port_first q.port_rest h.host_good
        (request_line q.method target) q.fields rest (init_req m) _ ctx refl (line_return h)
        (parse_line ctx.config.max_req_line_len m h) refl refl refl refl h.fields_new
