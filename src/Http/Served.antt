-- ===== src/Http/Served.antt =====
-- What a registered handler's content becomes.
use beemo.Common.{
  ℕ, zero, suc, ◌+◌, ◌/◌, ◌%◌, ◌-◌, ◌^◌, ◌<◌, true, [], ◌∷◌, some, ok, pos, ◌≡◌, refl, arith, ltb,
  if◌then◌else◌, length, Bool-cases, inl, inr, le→leb, ◌==◌,
}
use beemo.Text.{Bytes, codes, equal, equal_iff, stoi, stoi-digits, read_digits, is_digit}
use beemo.Http.Fields.{find_field, put_field}
use beemo.Http.Msg.{Req, get, post}
use beemo.Http.Resp.{digits_loop, to_string}
use beemo.Http.Routing.{
  ReqId, ReqHandler, Handlers, same_id, find_handler, register_req_handler,
  route_to_resource_handler,
}

-- A registered handler replaces the one that was registered for the same path and method, if any,
-- and is found for these alone: every other request goes where it went before.
find_handler-register_req_handler :
    (id j : ReqId) (handler : ReqHandler) (hs : Handlers)
    → find_handler j (register_req_handler id handler hs)
      ≡ (if same_id id j then some handler else find_handler j hs)
unfolding find_handler register_req_handler same_id
find_handler-register_req_handler id j handler [] = refl
find_handler-register_req_handler id j handler ((k, h) ∷ hs) = ground (
  arith,
  equal_iff k.path id.path,
  equal_iff id.path j.path,
  equal_iff k.path j.path,
  find_handler-register_req_handler id j handler hs,
)

-- The digits are read back as the number.
digits_loop-read :
    (fuel n : ℕ) (tail : Bytes)
    → n < fuel
    → read_digits 0 (digits_loop fuel n tail) ≡ read_digits n tail
unfolding digits_loop read_digits is_digit
digits_loop-read zero n tail h = absurd (omega arith)
digits_loop-read (suc fuel) n tail h =
    ground (arith, digits_loop-read fuel (n / 10) ((b'0' + n % 10) ∷ tail))

abbrev StartsDigit : Bytes → Type 0
StartsDigit s = (c : ℕ) × (cs : Bytes) × (s ≡ c ∷ cs) × (is_digit c ≡ true)

digits_loop_digit : (fuel n : ℕ) (tail : Bytes) → n < fuel → StartsDigit (digits_loop fuel n tail)
unfolding digits_loop is_digit
digits_loop_digit zero n tail h = absurd (omega arith)
digits_loop_digit (suc fuel) n tail h = elim (Bool-cases (ltb n 10)) [
  | inl e ↦ rw e (b'0' + n, tail, refl, ground (arith, e))
  | inr e ↦ rw e (digits_loop_digit fuel (n / 10) ((b'0' + n % 10) ∷ tail) (ground (arith, e)))
]

stoi-to_string : (n : ℕ) → n < 2 ^ 31 → stoi (to_string n) ≡ ok (pos n)
unfolding to_string read_digits
stoi-to_string n h =
    let (c, cs, e, digit) = digits_loop_digit (n + 1) n [] (omega arith) in
    let value = digits_loop-read (n + 1) n [] (omega arith) in
    rw (e, stoi-digits c cs digit, rw e at value, le→leb n (2 ^ 31 - 1) (omega arith)) refl

abbrev content_length : Bytes
content_length = codes "Content-Length"

-- Where a registered handler gives some content, shorter than 2 ^ 31 bytes, the response has that
-- content, and a Content-Length that reads back as its length. Its status is 200 for a get request
-- and 201 for a post request, and for any other method what the memory held before.
pub route_to_resource_handler-find_handler :
    (status : ℕ) (hs : Handlers) (r r' : Req) (handler : ReqHandler) (body : Bytes)
    → find_handler (record { path = r.uri.path; method = r.method }) hs ≡ some handler
    → handler r ≡ (some body, r')
    → length body < 2 ^ 31
    → let resp = (route_to_resource_handler status hs r).0 in
      (resp.body ≡ body)
      × ((value : Bytes) × (find_field content_length resp.fields ≡ some value)
          × (stoi value ≡ ok (pos (length body))))
      × (resp.status_code
          ≡ (if r'.method == get then 200 else if r'.method == post then 201 else status))
unfolding route_to_resource_handler find_field put_field equal
route_to_resource_handler-find_handler status hs r r' handler body found given short =
    elim (Bool-cases (r'.method == get)) [
      | inl e ↦
          rw (found, given, e)
            (refl, (to_string (length body), refl, stoi-to_string (length body) short), refl)
      | inr e ↦ elim (Bool-cases (r'.method == post)) [
        | inl f ↦
            rw (found, given, e, f)
              (refl, (to_string (length body), refl, stoi-to_string (length body) short), refl)
        | inr f ↦
            rw (found, given, e, f)
              (refl, (to_string (length body), refl, stoi-to_string (length body) short), refl)
      ]
    ]
