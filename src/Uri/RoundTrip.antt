-- ===== src/Uri/RoundTrip.antt =====
-- "host:port" is read back; an authority that keeps its "//", or has a ':' in its user information,
-- is not.
use beemo.Common.{
  ℕ, ◌+◌, ◌-◌, ◌<◌, true, false, not, ◌&&◌, [], ◌∷◌, ◌++◌, ok, ◌≡◌, refl, arith, ◌==◌, length, all,
  length-append, pos, ◌^◌, le→leb, append_assoc,
}
use beemo.Text.{
  Bytes, is_ascii, is_digit, deref, stoi-digits, read_digits, range_prefix, range_suffix,
  find_char-none, find_char-hit, lacks,
}
use beemo.Utils.Pattern.{all-imp, parse_pattern_prefix, parse_pattern-on_byte_suffix}
use beemo.Uri.{Uri}
use beemo.Uri.Grammar.{host_char, is_host_char-host_char, host_char-is_ascii}
use beemo.Uri.Chars.{is_host_char}
use beemo.Uri.Parts.{parse_port}
use beemo.Uri.Host.{parse_host}
use beemo.Uri.Parser.{port_colon, parse_authority_str, host_part, userinfo_part}

-- The bytes of a host name are none of the delimiters.
pub host_char-ne :
    (c : ℕ)
    → host_char c ≡ true
    → (not (c == b'@') && not (c == b']') && not (c == b':') && not (c == b'[')) ≡ true
unfolding host_char
host_char-ne c h = ground arith

digit-ne : (c : ℕ) → is_digit c ≡ true → (not (c == b'@') && not (c == b']')) ≡ true
unfolding is_digit
digit-ne c h = ground arith

host-is_ascii : (x : Bytes) → all host_char x ≡ true → all is_ascii x ≡ true
host-is_ascii x = all-imp host_char is_ascii x host_char-is_ascii

pub host-lacks-at : (x : Bytes) → all host_char x ≡ true → lacks b'@' x ≡ true
host-lacks-at x =
    all-imp host_char (λ c. not (c == b'@')) x (λ c h. ground (arith, host_char-ne c h))

pub host-lacks-bracket : (x : Bytes) → all host_char x ≡ true → lacks b']' x ≡ true
host-lacks-bracket x =
    all-imp host_char (λ c. not (c == b']')) x (λ c h. ground (arith, host_char-ne c h))

host-lacks-colon : (x : Bytes) → all host_char x ≡ true → lacks b':' x ≡ true
host-lacks-colon x =
    all-imp host_char (λ c. not (c == b':')) x (λ c h. ground (arith, host_char-ne c h))

digits-lack-at : (x : Bytes) → all is_digit x ≡ true → lacks b'@' x ≡ true
digits-lack-at x = all-imp is_digit (λ c. not (c == b'@')) x (λ c h. ground (arith, digit-ne c h))

digits-lack-bracket : (x : Bytes) → all is_digit x ≡ true → lacks b']' x ≡ true
digits-lack-bracket x =
    all-imp is_digit (λ c. not (c == b']')) x (λ c h. ground (arith, digit-ne c h))

-- A host of bytes below 128 that does not begin with '[' is stored as it stands, and `has_err` says
-- whether it is a name.
pub parse_host-name :
    (u : Uri) (c : ℕ) (x rest : Bytes)
    → (c == b'[') ≡ false
    → all is_ascii (c ∷ x) ≡ true
    → parse_host u (c ∷ x ++ rest) 0 (length (c ∷ x))
      ≡ ok (record u { has_err = not (all host_char (c ∷ x)); ipv4 = c ∷ x; reg_name = c ∷ x })
unfolding parse_host deref
parse_host-name u c x rest h a =
    rw
      (
        h,
        parse_pattern_prefix is_host_char host_char is_host_char-host_char (c ∷ x) rest a,
        range_prefix (c ∷ x) rest,
      )
      (ground arith)

-- A port of digits that fits an `int` is stored as the number that it writes.
pub parse_port-digits :
    (u : Uri) (before : Bytes) (d : ℕ) (ds : Bytes)
    → all is_digit (d ∷ ds) ≡ true
    → read_digits 0 (d ∷ ds) < 2 ^ 31
    → parse_port u (before ++ d ∷ ds) (length before) (length (before ++ d ∷ ds))
      ≡ ok (record u { has_err = false; port = pos (read_digits 0 (d ∷ ds)) })
unfolding parse_port
parse_port-digits u before d ds h k = rw (
  parse_pattern-on_byte_suffix is_digit before (d ∷ ds),
  range_suffix before (d ∷ ds),
  stoi-digits d ds (ground arith),
  h,
  le→leb (read_digits 0 (d ∷ ds)) (2 ^ 31 - 1) (omega arith),
)

port_behind-colon :
    (u : Uri) (x : Bytes) (d : ℕ) (ds : Bytes)
    → all is_digit (d ∷ ds) ≡ true
    → read_digits 0 (d ∷ ds) < 2 ^ 31
    → parse_port u (x ++ b':' ∷ d ∷ ds) (length x + 1) (length (x ++ b':' ∷ d ∷ ds))
      ≡ ok (record u { has_err = false; port = pos (read_digits 0 (d ∷ ds)) })
port_behind-colon u x d ds h k =
    let e : length (x ++ b':' ∷ []) ≡ length x + 1 = length-append x (b':' ∷ []) in
    rw (← append_assoc x (b':' ∷ []) (d ∷ ds), ← e) (parse_port-digits u (x ++ b':' ∷ []) d ds h k)

pub lacks-join :
    (k : ℕ) (x y : Bytes) (c : ℕ)
    → lacks k x ≡ true
    → lacks k y ≡ true
    → (c == k) ≡ false
    → lacks k (x ++ c ∷ y) ≡ true
lacks-join k [] y c h h' e = ground arith
lacks-join k (a ∷ x) y c h h' e = ground (arith, lacks-join k x y c)

-- "host:port", a host name and a port that fits an `int`, is read into `reg_name`, `ipv4` and
-- `port`. It clears `has_err` and changes nothing else.
pub parse_authority_str-host_port :
    (u : Uri) (c : ℕ) (x : Bytes) (d : ℕ) (ds : Bytes)
    → all host_char (c ∷ x) ≡ true
    → all is_digit (d ∷ ds) ≡ true
    → read_digits 0 (d ∷ ds) < 2 ^ 31
    → parse_authority_str u (c ∷ x ++ b':' ∷ d ∷ ds)
      ≡ ok (record u {
        has_err = false;
        ipv4 = c ∷ x;
        reg_name = c ∷ x;
        port = pos (read_digits 0 (d ∷ ds));
      })
unfolding parse_authority_str userinfo_part port_colon host_part
parse_authority_str-host_port u c x d ds h k small =
    let at =
      lacks-join b'@' (c ∷ x) (d ∷ ds) b':' (host-lacks-at (c ∷ x) h) (digits-lack-at (d ∷ ds) k)
        refl in
    let bracket =
      lacks-join b']' (c ∷ x) (d ∷ ds) b':' (host-lacks-bracket (c ∷ x) h)
        (digits-lack-bracket (d ∷ ds) k) refl in
    rw
      (
        find_char-none b'@' (c ∷ x ++ b':' ∷ d ∷ ds) at,
        find_char-none b']' (c ∷ x ++ b':' ∷ d ∷ ds) bracket,
        find_char-hit b':' (c ∷ x) (d ∷ ds) (host-lacks-colon (c ∷ x) h),
        parse_host-name u c x (b':' ∷ d ∷ ds) (ground (arith, host_char-ne c))
            (host-is_ascii (c ∷ x) h),
      )
      (port_behind-colon _ (c ∷ x) d ds k small)
