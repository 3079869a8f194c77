-- ===== src/Tests/AnswerClaims.antt =====
-- The theorems on `on_rx` and on what follows an answer, at concrete inputs.
use beemo.Common.{◌+◌, ◌-◌, ℕ, true, false, [], ◌∷◌, some, ok, ◌≡◌, refl, ◌⊎◌, arith}
use beemo.Text.{codes, equal, find_str}
use beemo.Http.Msg.{set_err, has_err}
use beemo.Http.Err.{bad_req_handler}
use beemo.Http.Resp.{build, to_str, to_string}
use beemo.Http.Conn.{Conn, complete, do_tx, sent, prepare_tx_bytes, prepare_tx, reset_state}
use beemo.Server.Epoll.{ev_out}
use beemo.Server.Rx.{on_rx_conn}
use beemo.Server.Table.{find}
use beemo.Server.World.{World, init_conn}
use beemo.Server.Handlers.{handle_out}
use beemo.Server.Sent.{handle_out-on_rx_conn}
use beemo.Server.Sound.{removed}
use beemo.Server.Answers.{Waits, Refuses, Serves, on_rx_conn-cases}
use beemo.Tests.HeaderClaims.{memory}
use beemo.Tests.Kernel.{Interest, kernel}
use beemo.Http.Headers.{parse_headers}
use beemo.Tests.ServerRun.{env, pointer, serving, serving-IsSound, serving-Holds}

-- "GET" has no line end, and is refused.
abbrev short : Conn
short = record (init_conn env) { io_rx = codes "GET" }

abbrev refused : Conn
refused = prepare_tx (record short {
  req = set_err short.req bad_req_handler;
  resp = build bad_req_handler short.resp;
  keep_alive = false;
})

short_run : on_rx_conn env short ≡ ok (ev_out, refused)
unfolding on_rx_conn parse_headers find_str
short_run = refl

on_rx_conn-cases_example :
    Waits short ev_out refused ⊎ (Refuses short ev_out refused ⊎ Serves env short ev_out refused)
on_rx_conn-cases_example = on_rx_conn-cases env short ev_out refused short_run

-- The 400 response is sent in two pieces.
abbrev size : ℕ
size = refused.io_tx.bytes_to_tx

abbrev done_sending : Conn
done_sending = record refused { io_tx = record refused.io_tx { bytes_tx = 10 + (size - 10) } }

refused_run :
    do_tx (sent 10 ∷ sent (size - 10) ∷ []) refused
    ≡ ok (complete, done_sending, to_str refused.resp)
unfolding do_tx prepare_tx_bytes to_str build to_string equal
refused_run = refl

handle_out-on_rx_conn_example :
    (to_str refused.resp ≡ to_str refused.resp)
    × (((refused.keep_alive ≡ false)
          × (handle_out kernel env
                (record { rx = []; tx = sent 10 ∷ sent (size - 10) ∷ [] })
                pointer
                refused
                serving
              ≡ ok (removed kernel pointer serving)))
        ⊎ ((has_err refused.req ≡ false)
            × ((v : World Interest) × (handle_out kernel env
                    (record { rx = []; tx = sent 10 ∷ sent (size - 10) ∷ [] })
                    pointer
                    refused
                    serving
                  ≡ ok v)
                × (find 5 v.conns
                    ≡ some (record { id = 0; conn = reset_state memory 0 done_sending }))
                × (kernel.armed 5 v.kernel ≡ true))))
unfolding to_str build prepare_tx_bytes to_string equal
handle_out-on_rx_conn_example =
    handle_out-on_rx_conn kernel env pointer short refused done_sending serving
      (sent 10 ∷ sent (size - 10) ∷ []) (to_str refused.resp) serving-IsSound serving-Holds
      short_run refl (omega arith) refused_run
