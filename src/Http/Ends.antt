-- ===== src/Http/Ends.antt =====
-- The loops of http/src/parser.cpp end: the fuel of the models is enough.
use beemo.Common.{
  ℕ, zero, suc, ◌+◌, ◌-◌, ◌≤◌, ◌<◌, not, ◌&&◌, [], ◌∷◌, Option, none, some, ◌≡◌, arith, ◌==◌, ltb,
  length, drop, length-drop, Bool-cases, Option-cases, inl, inr, Ends, ok-Ends, Ends-bind, Ends-if,
}
use beemo.Text.{
  Bytes, find_char, find_str, find_char_from, find_str_from, find_not_from, find_str_bound,
}
use beemo.Utils.{lowercase_str}
use beemo.Uri.{flag_all, flag_authority, flag_path, flag_query}
use beemo.Uri.Ends.{parse_uri-Ends, range-Ends, substr-Ends, stoi-Ends}
use beemo.Http.Msg.{Req, TargetForm, absolute, authority, asterik, origin, in_headers, has_err}
use beemo.Http.ReqLine.{
  is_some, parse_target_uri, parse_req_target, parse_version, parse_after_target, parse_target_part,
  parse_method_part, parse_req_line,
}
use beemo.Http.FieldLine.{parse_host_for, parse_host, store_field, parse_field, parse_field_line}
use beemo.Http.Headers.{ParseCtx, crlf, header_loop, start_headers, parse_headers}
use beemo.Http.Chunked.{trailer_loop}

parse_host_for-Ends :
    (form : TargetForm) (host : Bytes) (r : Req) → Ends (parse_host_for form host r)
unfolding parse_host_for
parse_host_for-Ends origin host r = Ends-bind _ _ (parse_uri-Ends r.uri host _) λ _ _. ok-Ends _
parse_host_for-Ends authority host r = Ends-bind _ _ (parse_uri-Ends r.uri host _) λ _ _. ok-Ends _
parse_host_for-Ends asterik host r = Ends-bind _ _ (parse_uri-Ends r.uri host _) λ _ _. ok-Ends _
parse_host_for-Ends absolute host r = ok-Ends _

parse_host-Ends : (host : Bytes) (r : Req) → Ends (parse_host host r)
unfolding parse_host
parse_host-Ends host r = parse_host_for-Ends r.target_form host r

store_field-Ends :
    (line name : Bytes) (start : Option ℕ) (r : Req) → Ends (store_field line name start r)
unfolding store_field
store_field-Ends line name none r = ok-Ends _
store_field-Ends line name (some i) r =
    Ends-bind _ _ (substr-Ends line i (length line))
      λ value _. Ends-if _ _ _ (parse_host-Ends value _) (ok-Ends _)

parse_field-Ends : (line : Bytes) (end : Option ℕ) (r : Req) → Ends (parse_field line end r)
unfolding parse_field
parse_field-Ends line none r = ok-Ends _
parse_field-Ends line (some n) r = Ends-bind _ _ (substr-Ends line 0 n) λ name _.
    Ends-if _ _ _ (ok-Ends _)
      (store_field-Ends line (lowercase_str name) (find_not_from b' ' line (n + 1)) r)

pub parse_field_line-Ends : (line : Bytes) (r : Req) → Ends (parse_field_line line r)
unfolding parse_field_line
parse_field_line-Ends line r = parse_field-Ends line (find_char b':' line) r

parse_target_uri-Ends :
    (r : Req) (form : TargetForm) (target : Bytes) (flags : ℕ)
    → Ends (parse_target_uri r form target flags)
unfolding parse_target_uri
parse_target_uri-Ends r form target flags =
    Ends-bind _ _ (parse_uri-Ends r.uri target flags) λ _ _. ok-Ends _

parse_req_target-Ends : (target : Bytes) (r : Req) → Ends (parse_req_target target r)
unfolding parse_req_target
parse_req_target-Ends [] r = λ e. cc
parse_req_target-Ends (c ∷ cs) r =
    let whole = c ∷ cs in
    Ends-if _ _ _ (Ends-if _ _ _ (ok-Ends _) (ok-Ends _)) (
      Ends-if (c == b'/') _ _ (parse_target_uri-Ends r origin whole (flag_path + flag_query)) (
        Ends-if (is_some (find_char b'/' whole)) _ _
          (parse_target_uri-Ends r absolute whole flag_all)
          (parse_target_uri-Ends r authority whole flag_authority)))

parse_version-Ends : (version : Bytes) (r : Req) → Ends (parse_version version r)
unfolding parse_version
parse_version-Ends version r = Ends-if _ _ _ (ok-Ends _) (
    Ends-bind _ _ (substr-Ends version _ 1) λ major _. Ends-bind _ _ (stoi-Ends major) λ _ _.
      Ends-bind _ _ (substr-Ends version _ 1)
        λ minor _. Ends-bind _ _ (stoi-Ends minor) λ _ _. Ends-if _ _ _ (ok-Ends _) (ok-Ends _))

parse_after_target-Ends : (line : Bytes) (i : ℕ) (r : Req) → Ends (parse_after_target line i r)
unfolding parse_after_target
parse_after_target-Ends line i r = Ends-if _ _ _ (ok-Ends _) (
    Ends-bind _ _ (range-Ends line (i + 1) (length line))
      λ version _. Ends-bind _ _ (parse_version-Ends version r) λ _ _. ok-Ends _)

parse_target_part-Ends :
    (line : Bytes) (i : ℕ) (end : Option ℕ) (r : Req) → Ends (parse_target_part line i end r)
unfolding parse_target_part
parse_target_part-Ends line i none r = ok-Ends _
parse_target_part-Ends line i (some j) r = Ends-bind _ _ (range-Ends line (i + 1) j) λ target _.
    Ends-bind _ _ (parse_req_target-Ends target r) λ r' _. parse_after_target-Ends line j r'

parse_method_part-Ends :
    (line : Bytes) (end : Option ℕ) (r : Req) → Ends (parse_method_part line end r)
unfolding parse_method_part
parse_method_part-Ends line none r = ok-Ends _
parse_method_part-Ends line (some i) r = Ends-bind _ _ (substr-Ends line 0 i) λ method _.
    Ends-if _ _ _ (ok-Ends _) (parse_target_part-Ends line i (find_char_from b' ' line (i + 1)) _)

pub parse_req_line-Ends : (line : Bytes) (max : ℕ) (r : Req) → Ends (parse_req_line line max r)
unfolding parse_req_line
parse_req_line-Ends line max r =
    Ends-if _ _ _ (ok-Ends _) (parse_method_part-Ends line (find_char b' ' line) r)

pub find_str_from_bound :
    (s : Bytes) (i : ℕ) {k : ℕ} → find_str_from crlf s i ≡ some k → (i ≤ k) × (k + 2 ≤ length s)
find_str_from_bound s i h = elim (Option-cases (find_str crlf (drop i s))) [
  | inl e ↦ ground (arith, e)
  | inr (k, e) ↦ ground (arith, e, find_str_bound crlf (drop i s) e, length-drop i s)
]

pub header_loop-Ends :
    (n : ℕ) (raw : Bytes) (r : Req) (i u : ℕ)
    → 0 < n
    → length raw < n + i
    → Ends (header_loop n raw r i u)
unfolding header_loop
header_loop-Ends zero raw r i u h a = absurd (omega arith)
header_loop-Ends (suc n) raw r i u h a =
    elim (Bool-cases (in_headers r.parse_state && not (has_err r))) [
      | inr e ↦ rw e (ok-Ends _)
      | inl e ↦ elim (Option-cases (find_str_from crlf raw i)) [
        | inl f ↦ rw (e, f) (ok-Ends _)
        | inr (j, f) ↦
            let (lo, hi) = find_str_from_bound raw i f in
            elim (Bool-cases (j == i)) [
              | inl g ↦ rw (e, f, g) (ok-Ends _)
              | inr g ↦
                  rw (e, f, g)
                    (Ends-bind _ _ (range-Ends raw i j) λ line _.
                      Ends-bind _ _ (parse_field_line-Ends line r)
                        λ r' _. header_loop-Ends n raw r' (j + 2) u (omega arith) (omega arith))
            ]
      ]
    ]

start_headers-Ends :
    (raw : Bytes) (r : Req) (ctx : ParseCtx) (end : Option ℕ) → Ends (start_headers raw r ctx end)
unfolding start_headers
start_headers-Ends raw r ctx none = ok-Ends _
start_headers-Ends raw r ctx (some i) = Ends-bind _ _ (range-Ends raw 0 i) λ line _.
    Ends-bind _ _ (parse_req_line-Ends line _ r)
      λ r' _. header_loop-Ends (length raw + 1) raw r' (i + 2) _ (omega arith) (omega arith)

-- `parse_headers` ends on every input and from every index: its loop, of which each round but the
-- last passes over a line end, never needs more rounds than there are bytes, and one.
pub parse_headers-Ends : (raw : Bytes) (r : Req) (ctx : ParseCtx) → Ends (parse_headers raw r ctx)
unfolding parse_headers
parse_headers-Ends raw r ctx =
    Ends-if _ _ _ (start_headers-Ends raw r ctx (find_str crlf raw))
      (header_loop-Ends (length raw + 1) raw r ctx.start_idx _ (omega arith) (omega arith))

pub trailer_loop-Ends :
    (n : ℕ) (raw : Bytes) (r : Req) (i : ℕ)
    → 0 < n
    → length raw < n + i
    → Ends (trailer_loop n raw r i)
unfolding trailer_loop
trailer_loop-Ends zero raw r i h a = absurd (omega arith)
trailer_loop-Ends (suc n) raw r i h a = elim (Bool-cases (ltb i (length raw))) [
  | inr e ↦ rw e (ok-Ends _)
  | inl e ↦ elim (Option-cases (find_str_from crlf raw i)) [
    | inl f ↦ rw (e, f) (ok-Ends _)
    | inr (j, f) ↦
        let (lo, hi) = find_str_from_bound raw i f in
        elim (Bool-cases (i == j)) [
          | inl g ↦ rw (e, f, g) (ok-Ends _)
          | inr g ↦
              rw (e, f, g)
                (Ends-bind _ _ (substr-Ends raw i (j - i)) λ line _.
                  Ends-bind _ _ (parse_field_line-Ends line r)
                    λ r' _. trailer_loop-Ends n raw r' (j + 2) (omega arith) (omega arith))
        ]
  ]
]
