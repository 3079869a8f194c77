-- ===== src/Http/Received.antt =====
-- What a connection receives, and what it parses.
use beemo.Common.{
  ℕ, zero, suc, ◌+◌, true, false, List, [], ◌∷◌, ◌++◌, Result, ok, ◌≡◌, refl, ap, ◌∙◌, sym, arith,
  ltb, if◌then◌else◌, length, drop, ◌≤◌, append_assoc, append-nil, take-append-drop, >>=-eq-ok, ◌<◌,
  ◌^◌, ◌%◌, Bool-cases, inl, inr,
}
use beemo.Text.{Bytes, lacks}
use beemo.Http.Conn.{
  add_sent, has_more, piece, failed, Conn, IoStatus, partial, complete, Rx, received, would_block,
  rx_loop, do_rx, strncpy, write_buf, prepare_tx_bytes, default_buf_len, do_tx, Sending, Tx, sent,
  no_room, broken,
}

abbrev pub all_received : List Bytes → List Rx → List Rx
all_received [] end = end
all_received (b ∷ bs) end = received b ∷ all_received bs end

abbrev pub joined : List Bytes → Bytes
joined [] = []
joined (b ∷ bs) = b ++ joined bs

rx_loop-would_block :
    (bs : List Bytes) (buf : Bytes) (c : Conn)
    → rx_loop (all_received bs (would_block ∷ [])) buf c
      ≡ ok (partial, record c { io_rx = c.io_rx ++ (buf ++ joined bs) })
unfolding rx_loop
rx_loop-would_block [] buf c = rw (append-nil) refl
rx_loop-would_block (b ∷ bs) buf c = elim (Bool-cases (ltb (length buf) default_buf_len)) [
  | inl e ↦ rw (e, rx_loop-would_block bs (buf ++ b) c, append_assoc buf b (joined bs)) refl
  | inr e ↦
      rw
        (
          e,
          rx_loop-would_block bs b (record c { io_rx = c.io_rx ++ buf }),
          append_assoc c.io_rx buf (b ++ joined bs),
        )
        refl
]

-- A call of `do_rx` appends to the receive buffer what the socket gives until it would block, in
-- order and whole, however the pieces fall on the buffers of 1024 bytes, and changes nothing else.
pub do_rx-received :
    (bs : List Bytes) (c : Conn)
    → do_rx (all_received bs (would_block ∷ [])) c
      ≡ ok (partial, record c { io_rx = c.io_rx ++ joined bs })
unfolding do_rx
do_rx-received bs c = rx_loop-would_block bs [] c

strncpy_lem : (s : Bytes) → lacks 0 s ≡ true → strncpy (length s) s ≡ s
unfolding strncpy
strncpy_lem [] h = refl
strncpy_lem (c ∷ s) h = ground (arith, strncpy_lem s)

drop-nil : (n : ℕ) → drop {A = ℕ} n [] ≡ []
drop-nil zero = refl
drop-nil (suc n) = refl

drop-drop : (i n : ℕ) (s : Bytes) → drop n (drop i s) ≡ drop (i + n) s
drop-drop zero n s = ap (λ k. drop k s) {x = n} {y = 0 + n} (omega arith)
drop-drop (suc i) n [] = drop-nil n ∙ sym (drop-nil (suc i + n))
drop-drop (suc i) n (c ∷ s) =
    drop-drop i n s ∙ ap (λ k. drop k (c ∷ s)) {x = suc (i + n)} {y = suc i + n} (omega arith)

-- What was sent, and what is left of the buffer, are what was left before.
abbrev Split : Conn → Conn → IoStatus → Bytes → Type 0
Split c c' status out =
    (out ++ drop c'.io_tx.bytes_tx c.io_tx.buf ≡ drop c.io_tx.bytes_tx c.io_tx.buf)
    × (c'.io_tx.bytes_to_tx ≡ c.io_tx.bytes_to_tx)
    × (status ≡ complete → c.io_tx.bytes_to_tx ≤ c'.io_tx.bytes_tx)

stop-Split :
    (c c' : Conn) (s status : IoStatus) (out : Bytes)
    → Path (Result Sending) (ok (s, c, [])) (ok (status, c', out))
    → (s ≡ complete → c.io_tx.bytes_to_tx ≤ c.io_tx.bytes_tx)
    → Split c c' status out
stop-Split c c' s status out h k =
    let same : c ≡ c' = cc in
    let none_out : [] ≡ out = cc in
    let end : s ≡ status = cc in rw (← same, ← none_out, ← end) (refl, refl, k)

sent-Split :
    (n : ℕ) (c c' : Conn) (status : IoStatus) (out : Bytes)
    → Split (add_sent n c) c' status out
    → Split c c' status (piece n c ++ out)
sent-Split n c c' status out (text, total, end) =
    let left = drop c.io_tx.bytes_tx c.io_tx.buf in
    (
      append_assoc (piece n c) out (drop c'.io_tx.bytes_tx c.io_tx.buf)
          ∙ ap (λ t. piece n c ++ t) (text ∙ sym (drop-drop c.io_tx.bytes_tx n c.io_tx.buf))
          ∙ take-append-drop n left,
      total,
      end,
    )

do_tx-Split :
    (ts : List Tx) (c c' : Conn) (status : IoStatus) (out : Bytes)
    → do_tx ts c ≡ ok (status, c', out)
    → Split c c' status out
unfolding do_tx
do_tx-Split [] c c' status out h = elim (Bool-cases (has_more c)) [
  | inr e ↦ stop-Split c c' complete status out (rw e at h) (λ _. ground (arith, e))
  | inl e ↦ let h' = rw e at h in absurd cc
]
do_tx-Split (sent n ∷ ts) c c' status out h = elim (Bool-cases (has_more c)) [
  | inr e ↦ stop-Split c c' complete status out (rw e at h) (λ _. ground (arith, e))
  | inl e ↦
      let (s, f, g) = >>=-eq-ok (do_tx ts (add_sent n c)) _ (rw e at h) in
      let before = sent-Split n c s.1 s.0 s.2 (do_tx-Split ts (add_sent n c) s.1 s.0 s.2 f) in
      let same : s.1 ≡ c' = cc in
      let text : piece n c ++ s.2 ≡ out = cc in
      let end : s.0 ≡ status = cc in rw (← same, ← text, ← end) before
]
do_tx-Split (no_room ∷ ts) c c' status out h = elim (Bool-cases (has_more c)) [
  | inr e ↦ stop-Split c c' complete status out (rw e at h) (λ _. ground (arith, e))
  | inl e ↦ stop-Split c c' partial status out (rw e at h) (λ k. absurd cc)
]
do_tx-Split (broken ∷ ts) c c' status out h = elim (Bool-cases (has_more c)) [
  | inr e ↦ stop-Split c c' complete status out (rw e at h) (λ _. ground (arith, e))
  | inl e ↦ stop-Split c c' failed status out (rw e at h) (λ k. absurd cc)
]

drop_all : (n : ℕ) (s : Bytes) → length s ≤ n → drop n s ≡ []
drop_all n [] h = drop-nil n
drop_all zero (c ∷ s) h = absurd (omega arith)
drop_all (suc n) (c ∷ s) h = drop_all n s (omega arith)

fits_count : (n k : ℕ) → n < 2 ^ 32 → n ≤ k → (if ltb k n then k else n) % 2 ^ 32 ≡ n
fits_count n k h le =
    let no : ltb k n ≡ false = ground arith in
    let small : n % 2 ^ 32 ≡ n = omega arith in rw (no, small) refl

prepared :
    (tx : Bytes) (c : Conn)
    → lacks 0 tx ≡ true
    → length tx < 2 ^ 32
    → ((prepare_tx_bytes tx c).io_tx.buf ≡ tx)
      × ((prepare_tx_bytes tx c).io_tx.bytes_tx ≡ 0)
      × ((prepare_tx_bytes tx c).io_tx.bytes_to_tx ≡ length tx)
unfolding prepare_tx_bytes write_buf
prepared tx c h short =
    let copied = strncpy_lem tx h in
    let count : length tx % 2 ^ 32 ≡ length tx = omega arith in
    elim (Bool-cases (ltb c.io_tx.buf_len (length tx))) [
      | inl e ↦
          rw (e, count, fits_count (length tx) (length tx) short (omega arith), copied)
            (refl, refl, refl)
      | inr e ↦
          rw (e, fits_count (length tx) c.io_tx.buf_len short (ground (arith, e)), copied)
            (refl, refl, refl)
    ]

-- A text with no zero byte that is prepared for sending, and sent until `do_tx` is complete, is sent
-- exactly: the bytes that the calls of `send` took are the text, whatever was sent or left in the
-- buffer before.
pub do_tx-prepare_tx_bytes :
    (tx : Bytes) (ts : List Tx) (c c' : Conn) (out : Bytes)
    → lacks 0 tx ≡ true
    → length tx < 2 ^ 32
    → do_tx ts (prepare_tx_bytes tx c) ≡ ok (complete, c', out)
    → out ≡ tx
do_tx-prepare_tx_bytes tx ts c c' out h short e =
    let (buf, start, total) = prepared tx c h short in
    let (text, total', end) = do_tx-Split ts (prepare_tx_bytes tx c) c' complete out e in
    let rest : drop c'.io_tx.bytes_tx tx ≡ [] =
      drop_all c'.io_tx.bytes_tx tx (omega (arith, end refl, total)) in
    sym (append-nil out) ∙ rw (buf, start, rest) at text
