-- ===== src/Lib.antt =====
-- Beemo, an HTTP/1.1 server in C++: a model of its threads, its connections, and the code that reads
-- a request and routes it.
--
-- The thread of `start` (http/src/server.cpp) accepts connections and registers them with the event
-- loop (linux/ev_epoll.cpp), which the workers of a thread pool (http/src/pool.cpp) run. A worker that
-- gets an event locks the connection and reads or writes its socket, and the server's handlers
-- register it again or close it. The server hands the bytes of a connection to `parse_headers`, then to
-- `parse_content`, each time more have arrived, until the request is complete or has an error.
-- `parse_headers` reads the request line, whose target goes to `uri::parse_uri`, and the field
-- lines, of which the host goes to `uri::parse_uri` again. `parse_content` compares the URI with
-- the configuration, reads the fields that describe the content, whose values are looked up in a
-- generated table of keywords, and cuts the content off or has it decoded. The request then goes
-- to the handler that is registered for its path and method, whose content becomes a response.
--
-- - Common: names of the library passed on, Boolean tests, lists over the native numbers, `int` and
--   `unsigned int`, and `Result`, the outcome of C++ code: a value, an exception that leaves the
--   function, undefined behaviour, or fuel that ran out.
-- - Text: strings as lists of bytes, and what the sources call of std::string_view, <cctype>,
--   std::stoi and the hexadecimal reading of a stream. A function of <cctype> that is called with a
--   plain `char` is undefined for the bytes from 128 on. An iterator is an offset into its view.
--   Text/Laws holds the lemmas on them.
-- - Utils: utils/include/utils/parsing.h and utils/src/parsing.cpp (`parse_pattern`,
--   `lowercase_str`, `parse_list`).
-- - Uri: uri/include/uri/uri.h (`uri`) and uri/src/parser.cpp, a function for each of its functions:
--   the predicates in Uri/Chars, the parts in Uri/Parts, `parse_host` and `parse_ipvfuture` in
--   Uri/Host, `parse_authority` and `parse_uri` in Uri/Parser. Uri/Grammar has the classes of the
--   grammar that the predicates are to decide. What is proved of them stands in
--   Uri/Path, Uri/Safety, Uri/Authority, Uri/RoundTrip, Uri/Wild, Uri/Faults, Uri/Origin and Uri/Ends.
-- - Keyword: http/include/http/keyword_map.h, the table that gperf generates from
--   http/gperf/http_keyword_hash.gperf, which is the list of Keyword/Reference.
-- - Http: http/include/http/msg.h and http/src/msg.cpp (`req`) in Http/Msg and Http/Fields,
--   http/src/err.cpp in Http/Err, http/include/http/config.h in Http/Config, and
--   http/src/parser.cpp: the request line in Http/ReqLine, a field line in Http/FieldLine,
--   `parse_headers` in Http/Headers, `parse_content` in Http/Content, and Http/Request
--   and the files below it a whole request as a client writes it and as these read it. Http/Chunked is
--   `decode_chunked` of http/src/encoding.cpp. Http/Resp is `resp` and `err_builder::build`, and
--   Http/Routing is http/src/routing.cpp. Http/Conn is http/src/conn.cpp with linux/io_buf.cpp. The
--   other files of Http hold theorems.
-- - Pool: http/src/pool.cpp and http/include/http/pool.h (`pool`), with what is proved of it in
--   Pool/Order, Pool/Wakeups, Pool/Shutdown and, for jobs that do not return, Pool/Endless.
-- - Server: http/src/server.cpp and linux/ev_epoll.cpp. Server/Epoll is the interface to the kernel,
--   Server/Table the maps, Server/World the members of `server` and `evloop`, Server/Rx the body of
--   `on_rx`, Server/Handlers every handler, `reg` and one event of `evloop::loop`, Server/Steps the
--   threads, Server/Life the construction and the end of the server and of the event loop, and the
--   loops that `start` submits. The lemmas on the handlers stand in Server/Sound, Server/Settled, Server/Arrival,
--   Server/Dispatched and Server/Counts, the theorems in Server/Serving, Server/Kept, Server/Answers, Server/Race,
--   Server/Stalled, Server/Sent and Server/Loops. Server/Whole, Server/InParts, Server/Events and
--   Server/Content follow a request through the calls of `on_rx`, up to Server/Requests,
--   Server/Chunks, Server/Replies and Server/Shortfalls; Server/Again is on a connection that is kept alive.
-- - Transport: linux/socket.cpp, transport/src/socket.cpp and linux/acceptor.cpp, and
--   Transport/Opened, on `acceptor::open`.
-- - Tests: runs, and the theorems at concrete inputs.
--
-- State is passed explicitly: a function that takes a pointer to a `req` or a `uri` returns the
-- changed record. What the calls of a socket return is a list, one entry for each call. The value
-- of an enumeration that comes out of the keyword table by a cast is a number, which need not be
-- an enumerator's. Members that no constructor sets are a parameter (`Memory`, and the status
-- code of a new response). The member `content` is called `body`. A map of fields is an
-- association list with one entry for each name.
--
-- Loops over the bytes of a view are structural. `parse_list`, `header_loop` and `trailer_loop`
-- run on fuel: a round passes over at least one byte, so they are given the length, or one more.
-- The first loop of `decode_chunked` need not end, so its fuel is a parameter, and a theorem that
-- the loop returns says which fuel is enough. A `size_t` wraps at 2 ^ 64 and an `unsigned int` at
-- 2 ^ 32 where the code computes with one that may wrap.
--
-- A decoder that changes the body that it reads through a view is counted as undefined behaviour,
-- since the body may move.
--
-- The threads are step relations. A step of the pool is a section that holds its mutex, the end of a
-- job, or a notification, which comes after the mutex is unlocked; a worker may wake up without one.
-- A step of the server is a section of the thread of `start`, an event that a worker gets, or a
-- handler from its event to its return, since the tables are locked where they are used. `on_conn`
-- is two steps, up to the return of `epoll_ctl` and from there on. A connection object is known by
-- a number, and a weak pointer has expired if the table of connections holds no such object. epoll is
-- a parameter with the laws of its manual pages, for a kernel that does not run out of memory; the
-- calls of a socket are a parameter that returns a number or an error.
--
-- Not modelled: the port to Windows (windows/), which has fallen behind the headers that it
-- implements; `socket::startup` and `socket::cleanup`, which are empty on Linux; the
-- banner, the reader of configuration files and the timeout wrapper of utils/, which nothing here
-- calls; logging.
pub mod Common
pub mod Text
pub mod Utils
pub mod Uri
mod Tests
pub mod Keyword
pub mod Http
pub mod Pool
pub mod Server
pub mod Transport
