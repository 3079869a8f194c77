-- ===== src/Transport.antt =====
-- linux/socket.cpp, transport/src/socket.cpp, linux/acceptor.cpp and their headers in
-- transport/include/transport. The operating system is a parameter: what a call returns, in a state
-- of its own.
pub mod Opened
use beemo.Common.{
  ℕ, ◌+◌, ◌-◌, ◌*◌, ◌/◌, ◌%◌, ◌^◌, ◌==◌, ◌||◌, Bool, Option, none, some, Result, ok, throw,
  transport_err, undefined, unfinished, if◌then◌else◌, take, drop,
}
use beemo.Text.{Bytes}
use beemo.Http.Conn.{IoBuf}

-- The calls, with the arguments that the sources choose. A handle of -1 is `none`.
pub data Call : Type 0 where
  create : Call
  set_reuse_address : Option ℕ → Call
  bind_any : Option ℕ → ℕ → Call
  listen_to : Option ℕ → ℕ → Call
  accept_from : Option ℕ → Call
  get_flags : Option ℕ → Call
  set_flags : Option ℕ → ℕ → Call
  recv_into : Option ℕ → ℕ → Call
  send_from : Option ℕ → Bytes → Call
  shut_down : Option ℕ → ℕ → Call
  get_name : Option ℕ → Call
  close_handle : Option ℕ → Call

-- A call returns a number, or -1 with an `errno`.
pub data Ret : Type 0 where
  returned : ℕ → Ret
  failed : ℕ → Ret

abbrev pub Os : Type 0 → Type 0
Os S = Call → S → Ret × S

-- `socket`
pub record Socket : Type 0 where
  pub handle : Option ℕ
  pub last_error : ℕ

abbrev pub new_socket : Socket
new_socket = record { handle = none; last_error = 0 }

abbrev pub of_handle : ℕ → Socket
of_handle h = record { handle = some h; last_error = 0 }

-- O_NONBLOCK, EAGAIN and EWOULDBLOCK of Linux, and the arguments of `shutdown`.
abbrev o_nonblock : ℕ
o_nonblock = 2048

abbrev eagain : ℕ
eagain = 11

abbrev ewouldblock : ℕ
ewouldblock = 11

abbrev shut_rd : ℕ
shut_rd = 0

abbrev shut_wr : ℕ
shut_wr = 1

abbrev shut_rdwr : ℕ
shut_rdwr = 2

-- The flags with O_NONBLOCK cleared, or set.
abbrev without_nonblock : ℕ → ℕ
without_nonblock flags = flags - flags / o_nonblock % 2 * o_nonblock

abbrev pub with_blocking : Bool → ℕ → ℕ
with_blocking set flags =
    if set then without_nonblock flags else without_nonblock flags + o_nonblock

-- `void`
abbrev pub Void : Type 0
Void = Unit

-- The error is kept in `last_error_`.
abbrev pub set_error : ℕ → Socket → Socket
set_error errno s = record s { last_error = errno }

-- What a member function leaves: its result or exception, the socket, and the system.
abbrev pub Act : Type 0 → Type 0 → Type 0
Act S A = Socket → S → Result A × Socket × S

abbrev pub would_block : Socket → Bool
would_block s = s.last_error == eagain || s.last_error == ewouldblock

module _ {S : Type 0} where
  abbrev pub and_then :
      {A B : Type 0} → Result A × Socket × S → (A → Act S B) → Result B × Socket × S
  and_then (ok a, s, t) f = f a s t
  and_then (throw e, s, t) f = (throw e, s, t)
  and_then (undefined, s, t) f = (undefined, s, t)
  and_then (unfinished, s, t) f = (unfinished, s, t)

  -- `if (… == -1) { last_error_ = errno; throw transport_err(); }`
  abbrev pub or_throw : Socket → Ret × S → Result ℕ × Socket × S
  or_throw s (returned n, t) = (ok n, s, t)
  or_throw s (failed errno, t) = (throw transport_err, set_error errno s, t)

  -- `if (… == -1) { last_error_ = errno; } return …;`
  abbrev pub or_minus_one : Socket → Ret × S → Option ℕ × Socket × S
  or_minus_one s (returned n, t) = (some n, s, t)
  or_minus_one s (failed errno, t) = (none, set_error errno s, t)

module _ {S : Type 0} (os : Os S) where
  abbrev created : Socket → Ret × S → Result Void × Socket × S
  created s (returned h, t) = (ok tt, record s { handle = some h }, t)
  created s (failed errno, t) =
      (throw transport_err, record s { handle = none; last_error = errno }, t)

  unfoldable pub create_handle : Act S Void
  create_handle s t = created s (os create t)

  unfoldable pub accept : Act S ℕ
  accept s t = or_throw s (os (accept_from s.handle) t)

  unfoldable pub blocking : Bool → Act S Void
  blocking set s t = and_then (or_throw s (os (get_flags s.handle) t)) λ flags s₁ t₁.
      and_then (or_throw s₁ (os (set_flags s₁.handle (with_blocking set flags)) t₁))
        λ n s₂ t₂. (ok tt, s₂, t₂)

  unfoldable pub rx : IoBuf → Socket → S → Option ℕ × Socket × S
  rx io s t = or_minus_one s (os (recv_into s.handle (io.buf_len - io.bytes_rx)) t)

  unfoldable pub tx : IoBuf → Socket → S → Option ℕ × Socket × S
  tx io s t =
      or_minus_one s
        (os (send_from s.handle (take (io.bytes_to_tx - io.bytes_tx) (drop io.bytes_tx io.buf))) t)

  abbrev pub close_rx : Socket → S → Option ℕ × Socket × S
  close_rx s t = or_minus_one s (os (shut_down s.handle shut_rd) t)

  abbrev pub close_tx : Socket → S → Option ℕ × Socket × S
  close_tx s t = or_minus_one s (os (shut_down s.handle shut_wr) t)

  abbrev pub close_rtx : Socket → S → Option ℕ × Socket × S
  close_rtx s t = or_minus_one s (os (shut_down s.handle shut_rdwr) t)

  -- `~socket`
  unfoldable pub destroy : Socket → S → S
  destroy s t = let (_, s₁, t₁) = close_rtx s t in (os (close_handle s₁.handle) t₁).1

  unfoldable pub set_options : Act S Void
  set_options s t =
      and_then (or_throw s (os (set_reuse_address s.handle) t)) λ n s₁ t₁. (ok tt, s₁, t₁)

  unfoldable pub bind : ℕ → Act S Void
  bind port s t = and_then (or_throw s (os (bind_any s.handle port) t)) λ n s₁ t₁. (ok tt, s₁, t₁)

  -- The one that throws without keeping the error.
  abbrev listened : Socket → Ret × S → Result Void × Socket × S
  listened s (returned n, t) = (ok tt, s, t)
  listened s (failed errno, t) = (throw transport_err, s, t)

  unfoldable pub listen : ℕ → Act S Void
  listen backlog s t = listened s (os (listen_to s.handle backlog) t)

  abbrev named : Socket → Ret × S → Socket × S
  named s (returned n, t) = (s, t)
  named s (failed errno, t) = (set_error errno s, t)

  unfoldable pub address : Socket → S → Socket × S
  address s t = named s (os (get_name s.handle) t)

  -- `acceptor::open`; the address that is bound is INADDR_ANY with the port.
  unfoldable pub open_acceptor : ℕ → ℕ → Act S Void
  unfolding create_handle set_options bind listen
  open_acceptor port backlog s t = and_then (create_handle s t) λ u s₁ t₁.
      and_then (set_options s₁ t₁)
        λ u s₂ t₂. and_then (bind (port % 2 ^ 16) s₂ t₂) (λ u. listen backlog)
