-- ===== src/Tests/TransportClaims.antt =====
-- `acceptor::open` on a system where the port is taken.
use beemo.Common.{ℕ, suc, some, throw, transport_err, ◌≡◌, refl}
use beemo.Transport.{bind_any, returned, failed, Os, new_socket, create, open_acceptor}
use beemo.Transport.Opened.{opens, open_acceptor-opens}

-- The state counts the calls.
abbrev taken : Os ℕ
taken (bind_any h port) n = (failed 98, suc n)
taken _ n = (returned 3, suc n)

open_acceptor-opens_example :
    open_acceptor taken 8080 10 new_socket 0 ≡ opens taken 8080 10 new_socket (taken create 0)
open_acceptor-opens_example = open_acceptor-opens taken 8080 10 new_socket 0

-- It is the third call that fails.
taken_run :
    open_acceptor taken 8080 10 new_socket 0
    ≡ (throw transport_err, record { handle = some 3; last_error = 98 }, 3)
unfolding open_acceptor
taken_run = refl
