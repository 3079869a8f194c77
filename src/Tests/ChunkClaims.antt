-- ===== src/Tests/ChunkClaims.antt =====
-- A request with chunked content, answered by its handler.
use beemo.Common.{List, [], ◌∷◌, ok, ◌≡◌, refl, arith}
use beemo.Text.{Bytes, codes, find_str, equal, is_xdigit, read_hex}
use beemo.Utils.{lowercase_str, parse_list}
use beemo.Uri.Grammar.{pchar}
use beemo.Uri.Path.{is_path}
use beemo.Keyword.{keyword_val, hash, match_word}
use beemo.Http.Fields.{find_field, put_field, contains}
use beemo.Http.Msg.{Req}
use beemo.Http.Routing.{find_handler, same_id}
use beemo.Http.Conn.{Conn}
use beemo.Http.Content.{coding_values}
use beemo.Http.Received.{joined}
use beemo.Text.{find_not}
use beemo.Http.WrittenText.{IsField}
use beemo.Http.ChunkRound.{IsChunk}
use beemo.Http.Request.Whole.{Request, IsRequest, IsFor, content_at}
use beemo.Http.Request.Chunked.{IsChunked, read_chunked}
use beemo.Server.Epoll.{ev_out}
use beemo.Server.World.{init_conn}
use beemo.Server.InParts.{with_more}
use beemo.Server.Events.{rx_events}
use beemo.Server.Whole.{IsHandled, answered}
use beemo.Server.Requests.{Arrives}
use beemo.Server.Chunks.{rx_events-write_chunks}
use beemo.Tests.HeaderClaims.{memory}
use beemo.Tests.RequestData.{env, echo, sent, sent-IsFor, localhost-IsHost}

abbrev streamed : Request
streamed = record sent { fields = (codes "Transfer-Encoding", codes "chunked") ∷ [] }

coding-IsField : IsField (codes "Transfer-Encoding") (codes "chunked")
unfolding find_not
coding-IsField = record {
  name_colon = refl;
  name_return = refl;
  value_return = refl;
  value_first = refl;
}

streamed-IsRequest : IsRequest streamed
unfolding find_str is_path keyword_val lowercase_str contains equal hash match_word pchar
streamed-IsRequest = record {
  method_space = refl;
  method_return = refl;
  method_known = refl;
  path_space = refl;
  path_return = refl;
  path_mark = refl;
  path_double = refl;
  path_good = refl;
  query_good = tt;
  host_good = localhost-IsHost;
  fields_new = (coding-IsField, refl, refl, tt);
  fields_coding = refl;
  fields_type = refl;
}

streamed-IsFor : IsFor streamed env.config
streamed-IsFor = record { port_same = sent-IsFor.port_same; name_same = sent-IsFor.name_same }

streamed-IsChunked : IsChunked streamed
unfolding find_field put_field lowercase_str equal coding_values parse_list keyword_val hash
    match_word
streamed-IsChunked = record {
  value = codes "chunked";
  given = refl;
  codings = refl;
  no_length = refl;
}

abbrev chunks : List (Bytes × Bytes)
chunks = (codes "2", codes "hi") ∷ (codes "3", codes " yo") ∷ []

two_bytes : IsChunk (codes "2") (codes "hi")
unfolding is_xdigit read_hex
two_bytes = record { some_digit = refl; only_digits = refl; size = refl }

three_bytes : IsChunk (codes "3") (codes " yo")
unfolding is_xdigit read_hex
three_bytes = record { some_digit = refl; only_digits = refl; size = refl }

abbrev opening : Conn
opening = record (init_conn env) { io_rx = codes "POST /a HTTP/1.1\r\nHost: " }

abbrev closing : List Bytes
closing =
    codes "localhost:9000\r\nTransfer-Enc"
    ∷ codes "oding: chunked\r\n\r\n2\r\nhi\r\n3\r\n yo\r\n0\r\n\r\n"
    ∷ []

abbrev content : Bytes
content = codes "2\r\nhi\r\n3\r\n yo\r\n0\r\n\r\n"

streamed-Arrives : Arrives env opening streamed content closing
unfolding find_str
streamed-Arrives = record {
  new = refl;
  index = omega arith;
  line = (16, refl);
  text = refl;
  short = omega arith;
  ends = (omega arith, (omega arith, tt));
}

abbrev read : Req
read = read_chunked streamed memory chunks

read-IsHandled : IsHandled env read read (codes "hi yo")
unfolding find_handler same_id equal keyword_val hash match_word
read-IsHandled = record { handler = echo; found = refl; given = refl; fine = refl }

rx_events-write_chunks_example :
    rx_events env opening closing
    ≡ ok (
      ev_out,
      answered env
          (with_more (joined closing) opening)
          (content_at streamed content)
          read
          (codes "hi yo"),
    )
rx_events-write_chunks_example =
    rx_events-write_chunks env opening streamed chunks (codes "hi yo") closing read
      streamed-IsRequest streamed-IsFor streamed-IsChunked
      (two_bytes, refl, (three_bytes, refl, tt)) (omega arith) (omega arith) streamed-Arrives
      read-IsHandled
