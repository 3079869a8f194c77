-- ===== src/Uri/Safety.antt =====
-- Where the parsers of uri/src/parser.cpp stay inside their views.
use beemo.Common.{
  ℕ, zero, suc, ◌+◌, ◌-◌, ◌≤◌, ◌<◌, true, false, [], ◌∷◌, some, ok, ◌≡◌, arith, ◌==◌, length, take,
  drop, all, &&-true, Bool-cases, Option-cases, inl, inr, length-take, Defined, Defined-ok,
  ok-Defined, ◌≢◌,
}
use beemo.Text.{
  Bytes, is_ascii, on_char, is_xdigit, to_lower, deref, deref_before, stoi, range-take, deref_lem,
  deref-drop, find_char, find_char_bound, deref_before,
}
use beemo.Utils.Pattern.{parse_pattern-all, parse_pattern-on_byte, all-take, all-drop}
use beemo.Uri.{Uri}
use beemo.Uri.Grammar.{
  is_scheme_char-scheme_char, is_userinfo_char-userinfo_char, is_query_char-query_char,
  is_future_char-future_char, is_host_char-host_char,
}
use beemo.Uri.Path.{parse_path-is_path}
use beemo.Uri.Parts.{parse_scheme, parse_userinfo, parse_port, parse_path, parse_query}
use beemo.Uri.Host.{parse_host, parse_ipvfuture}

stoi-Defined : (s : Bytes) → Defined (stoi s)
unfolding stoi
stoi-Defined s = ground arith

deref-is_ascii :
    (s : Bytes) (i : ℕ) {c : ℕ} → all is_ascii s ≡ true → deref s i ≡ ok c → is_ascii c ≡ true
unfolding deref
deref-is_ascii [] i h e = absurd (cc)
deref-is_ascii (x ∷ s) zero h e = ground (arith, h, e)
deref-is_ascii (x ∷ s) (suc i) h e =
    deref-is_ascii s i (&&-true (is_ascii x) (all is_ascii s) h).1 e

range-is_ascii :
    (s : Bytes) (i j : ℕ) → all is_ascii s ≡ true → all is_ascii (take (j - i) (drop i s)) ≡ true
range-is_ascii s i j h = all-take is_ascii (j - i) (drop i s) (all-drop is_ascii i s h)

module _ (s : Bytes) (i j : ℕ) (h : i ≤ j) (k : j ≤ length s) where
  pub parse_port-Defined : (u : Uri) → Defined (parse_port u s i j)
  unfolding parse_port
  parse_port-Defined u =
      rw (parse_pattern-on_byte _ s i j h k, range-take s i j h k)
        (ground (arith, stoi-Defined (take (j - i) (drop i s))))

module _ (s : Bytes) (a : all is_ascii s ≡ true) (i j : ℕ) (h : i ≤ j) (k : j ≤ length s) where
  pub parse_userinfo-Defined : (u : Uri) → Defined (parse_userinfo u s i j)
  unfolding parse_userinfo
  parse_userinfo-Defined u =
      rw
        (
          parse_pattern-all _ _ is_userinfo_char-userinfo_char s i j h k (range-is_ascii s i j a),
          range-take s i j h k,
        )
        (ok-Defined _)

  pub parse_query-Defined : (u : Uri) → Defined (parse_query u s i j)
  unfolding parse_query
  parse_query-Defined u =
      rw
        (
          parse_pattern-all _ _ is_query_char-query_char s i j h k (range-is_ascii s i j a),
          range-take s i j h k,
        )
        (ok-Defined _)

  pub parse_path-Defined : (u : Uri) → Defined (parse_path u s i j)
  parse_path-Defined u = Defined-ok (parse_path-is_path u s i j h k (range-is_ascii s i j a))

  pub parse_scheme-Defined : (u : Uri) → Defined (parse_scheme u s i j)
  unfolding parse_scheme on_char
  parse_scheme-Defined u = elim (Bool-cases (i == j)) [
    | inl same ↦ rw same (ok-Defined _)
    | inr differ ↦
        let (c, e) = deref_lem s i (ground arith) in
        rw
          (
            differ,
            e,
            deref-is_ascii s i a e,
            parse_pattern-all _ _ is_scheme_char-scheme_char s i j h k (range-is_ascii s i j a),
            range-take s i j h k,
          )
          (ground arith)
  ]

find_char_after :
    (c : ℕ) (xs : Bytes) {d : ℕ} → (c == b'.') ≡ false → find_char b'.' (c ∷ xs) ≡ some d → 0 < d
unfolding find_char
find_char_after c xs h e = elim (Option-cases (find_char b'.' xs)) [
  | inl f ↦ ground (arith, f)
  | inr (k, f) ↦ ground (arith, f)
]

module _ (s : Bytes) (a : all is_ascii s ≡ true) (i j : ℕ) (h : i < j) (k : j ≤ length s) where
  -- The dot is not at the 'v'.
  dot_pos :
      {c d : ℕ}
      → deref s i ≡ ok c
      → (c == b'v') ≡ true
      → find_char b'.' (take (j - i) (drop i s)) ≡ some d
      → (0 < d) × (i + d < j)
  dot_pos {c} {d} v is_v f =
      let bound = find_char_bound b'.' (take (j - i) (drop i s)) f in
      let size : j - i ≡ suc (j - i - 1) = omega arith in
      let f' = rw (deref-drop s i v, size) at f in
      (find_char_after c _ (ground arith) f', omega (arith, bound, length-take (j - i) (drop i s)))

  pub parse_ipvfuture-Defined : (u : Uri) → Defined (parse_ipvfuture u s i j)
  unfolding parse_ipvfuture
  parse_ipvfuture-Defined u =
      let (c, e) = deref_lem s i (omega arith) in
      let differ : (i == j) ≡ false = ground arith in
      rw (range-take s i j (omega arith) k, differ, e)
        (elim (Bool-cases (c == b'v')) [
          | inr other ↦ rw other (ok-Defined _)
          | inl is_v ↦ rw is_v (elim (Option-cases (find_char b'.' (take (j - i) (drop i s)))) [
            | inl none_found ↦ rw none_found (ok-Defined _)
            | inr (d, f) ↦
                let (p, q) = dot_pos e is_v f in
                rw
                  (
                    f,
                    parse_pattern-on_byte is_xdigit s (i + 1) (i + d) (omega arith) (omega arith),
                    range-take s (i + 1) (i + d) (omega arith) (omega arith),
                    range-take s (i + d + 1) j (omega arith) (omega arith),
                  )
                  (let last =
                      parse_pattern-all _ _ is_future_char-future_char s (i + d + 1) j (omega arith)
                        k (range-is_ascii s (i + d + 1) j a) in
                    ground (arith, last))
          ])
        ])

pub deref_before_lem : (s : Bytes) (j : ℕ) → 0 < j → deref_before s j ≡ deref s (j - 1)
unfolding deref_before
deref_before_lem s zero h = elim h [ ]
deref_before_lem s (suc j) h = let e : suc j - 1 ≡ j = omega arith in rw e

lower_v : (c : ℕ) → (to_lower c == b'v') ≡ true → (c == b']') ≡ false
unfolding to_lower
lower_v c h = ground arith

same_deref : (s : Bytes) (i j : ℕ) {c d : ℕ} → deref s i ≡ ok c → deref s j ≡ ok d → i ≡ j → c ≡ d
same_deref s i j e f h = cc

module _ (s : Bytes) (a : all is_ascii s ≡ true) (i j : ℕ) (h : i ≤ j) (k : j ≤ length s) where
  literal-Defined :
      {c : ℕ} (u : Uri)
      → i < j
      → deref s i ≡ ok c
      → (c == b'[') ≡ true
      → deref s (j - 1) ≡ ok b']'
      → Defined (parse_host u s i j)
  unfolding parse_host on_char
  literal-Defined {c} u lt e open_bracket f =
      let differ : (i == j) ≡ false = ground arith in
      let inside : i ≢ j - 1 = λ same. ground (arith, same_deref s i (j - 1) e f same) in
      let (d, g) = deref_lem s (i + 1) (omega arith) in
      rw
        (
          differ,
          e,
          open_bracket,
          deref_before_lem s j (omega arith),
          f,
          g,
          deref-is_ascii s (i + 1) a g,
        )
        (elim (Bool-cases (to_lower d == b'v')) [
          | inl is_v ↦
              let later : i + 1 ≢ j - 1 =
                λ same. ground (arith, same_deref s (i + 1) (j - 1) g f same, lower_v d is_v) in
              rw is_v (parse_ipvfuture-Defined s a (i + 1) (j - 1) (omega arith) (omega arith) u)
          | inr other ↦
              rw (other, range-take s (i + 1) (j - 1) (omega arith) (omega arith)) (ok-Defined _)
        ])

  -- On a range within its view `parse_host` does nothing undefined, where the view has no byte from
  -- 128 on: the tests of the brackets, and the address or the version behind them, stay in the range.
  pub parse_host-Defined : (u : Uri) → Defined (parse_host u s i j)
  unfolding parse_host
  parse_host-Defined u = elim (Bool-cases (i == j)) [
    | inl same ↦ rw same (ok-Defined _)
    | inr differ ↦
        let lt : i < j = ground arith in
        let (c, e) = deref_lem s i (omega arith) in
        let (d, f) = deref_lem s (j - 1) (omega arith) in
        elim (Bool-cases (c == b'[')) [
          | inr other ↦
              rw
                (
                  differ,
                  e,
                  other,
                  parse_pattern-all _ _ is_host_char-host_char s i j h k (range-is_ascii s i j a),
                  range-take s i j h k,
                )
                (ok-Defined _)
          | inl bracket ↦ elim (Bool-cases (d == b']')) [
            | inr unclosed ↦
                rw (differ, e, bracket, deref_before_lem s j (omega arith), f, unclosed)
                  (ok-Defined _)
            | inl closed ↦
                let d_is : d ≡ b']' = ground arith in literal-Defined u lt e bracket (rw d_is at f)
          ]
        ]
  ]
