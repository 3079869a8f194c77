-- ===== src/Tests/ConnClaims.antt =====
-- The theorems on connections at concrete inputs.
use beemo.Common.{◌≡◌, true, [], ◌∷◌, ok, refl, arith}
use beemo.Text.{codes}
use beemo.Http.Resp.{init_resp}
use beemo.Http.Conn.{
  Conn, init_buf, default_buf_len, would_block, do_rx, partial, complete, sent, do_tx,
  prepare_tx_bytes,
}
use beemo.Http.Received.{all_received, do_rx-received, do_tx-prepare_tx_bytes}
use beemo.Tests.HeaderClaims.{new_req}

abbrev new_conn : Conn
new_conn = record {
  keep_alive = true;
  parsed_to_idx = 0;
  io_rx = codes "GE";
  io_tx = init_buf default_buf_len;
  req = new_req;
  resp = init_resp 0;
}

do_rx-received_example :
    do_rx (all_received (codes "T /" ∷ codes "a" ∷ []) (would_block ∷ [])) new_conn
    ≡ ok (partial, record new_conn { io_rx = codes "GET /a" })
do_rx-received_example = do_rx-received (codes "T /" ∷ codes "a" ∷ []) new_conn

abbrev sent_conn : Conn
sent_conn = record new_conn {
  io_tx = record (init_buf default_buf_len) { buf = codes "hello"; bytes_tx = 5; bytes_to_tx = 5 };
}

sent_run :
    do_tx (sent 3 ∷ sent 2 ∷ []) (prepare_tx_bytes (codes "hello") new_conn)
    ≡ ok (complete, sent_conn, codes "hello")
unfolding do_tx prepare_tx_bytes
sent_run = refl

do_tx-prepare_tx_bytes_example : codes "hello" ≡ codes "hello"
do_tx-prepare_tx_bytes_example =
    do_tx-prepare_tx_bytes (codes "hello") (sent 3 ∷ sent 2 ∷ []) new_conn sent_conn (codes "hello")
      refl (omega arith) sent_run
