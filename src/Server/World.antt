-- ===== src/Server/World.antt =====
-- The state of the server: http/include/http/server.h and ev/include/ev/evloop.h.
use beemo.Common.{ℕ, ◌==◌, true, if◌then◌else◌, List, [], Option, none, some}
use beemo.Http.Conn.{Conn, init_buf, default_buf_len}
use beemo.Http.Msg.{init_req}
use beemo.Http.Resp.{init_resp}
use beemo.Server.Rx.{Env}
use beemo.Server.Table.{find}

-- A connection object, by the number of objects made before it.
pub record Object : Type 0 where
  pub id : ℕ
  pub conn : Conn

-- A `std::weak_ptr<conn>` to an object, with the object's `skt_->handle_`. An object with a handle
-- is owned by the entry of `conns_` under that handle, and by a handler while it runs.
pub record WeakPtr : Type 0 where
  pub handle : ℕ
  pub id : ℕ

-- What `epoll_wait` says of a descriptor: EPOLLERR, else EPOLLIN, else EPOLLOUT, or none of them.
pub data Ready : Type 0 where
  err readable writable neither : Ready

-- Where the thread in `start` stands: before its test of the number of connections, in `accept`,
-- within the `reg` of a new connection, behind `epoll_ctl`, or past its `return`.
pub data Main : Type 0 where
  waiting accepting returned : Main
  registering : WeakPtr → Main

-- `conns_`, `events_` (an empty pointer is no entry), the number of objects made so far, the kernel's
-- epoll instance, and the events that the worker threads got and have not yet handled.
pub record World (K : Type 0) : Type 0 where
  pub conns : List (ℕ × Object)
  pub events : List (ℕ × WeakPtr)
  pub made : ℕ
  pub kernel : K
  pub main : Main
  pub pending : List (ℕ × Ready)

-- `conn::conn`
abbrev pub init_conn : Env → Conn
init_conn env = record {
  keep_alive = true;
  parsed_to_idx = 0;
  io_rx = [];
  io_tx = init_buf default_buf_len;
  req = init_req env.memory;
  resp = init_resp env.status;
}

abbrev owned : ℕ → Option Object → Option Conn
owned id none = none
owned id (some o) = if o.id == id then some o.conn else none

module _ {K : Type 0} where
  abbrev pub init_world : K → World K
  init_world k = record {
    conns = [];
    events = [];
    made = 0;
    kernel = k;
    main = waiting;
    pending = [];
  }

  -- The object of a weak pointer, if there is one: `lock()`.
  unfoldable pub lock : Option WeakPtr → World K → Option Conn
  lock none w = none
  lock (some p) w = owned p.id (find p.handle w.conns)
