-- ===== src/Http/Request/Host.antt =====
-- http/src/parser.cpp: the host field of a request in origin form, "Host: name:port".
use beemo.Common.{
  ℕ, ◌+◌, ◌^◌, ◌<◌, true, false, not, ◌&&◌, [], ◌∷◌, ◌++◌, none, pos, ok, ◌≡◌, refl, ap, ◌∙◌, arith,
  ◌==◌, length, all, take_all,
}
use beemo.Text.{
  Bytes, is_digit, find_char-none, find_str, starts_with, range, range-take, read_digits, lacks,
}
use beemo.Uri.{Uri, no_scheme, flag_scheme, flag_authority}
use beemo.Uri.Grammar.{host_char}
use beemo.Utils.Pattern.{all-imp}
use beemo.Uri.RoundTrip.{lacks-join, parse_authority_str-host_port}
use beemo.Uri.Parser.{parse_authority, parse_uri}

host_char-slash :
    (c : ℕ) → host_char c ≡ true → (not (c == b'/') && not (c == b'?') && not (c == 13)) ≡ true
unfolding host_char
host_char-slash c h = ground arith

digit-slash :
    (c : ℕ) → is_digit c ≡ true → (not (c == b'/') && not (c == b'?') && not (c == 13)) ≡ true
unfolding is_digit
digit-slash c h = ground arith

-- A host name and the digits of a port that fits an `int`, with the text that they make.
pub record IsHost (c : ℕ) (x : Bytes) (d : ℕ) (ds : Bytes) : Type 0 where
  pub name : all host_char (c ∷ x) ≡ true
  pub digits : all is_digit (d ∷ ds) ≡ true
  pub fits : read_digits 0 (d ∷ ds) < 2 ^ 31

abbrev pub host_text : ℕ → Bytes → ℕ → Bytes → Bytes
host_text c x d ds = c ∷ x ++ b':' ∷ d ∷ ds

-- No pattern with a byte that is not in the text is found.
starts_with-second : (a k : ℕ) (p s : Bytes) → lacks k s ≡ true → starts_with (a ∷ k ∷ p) s ≡ false
unfolding starts_with
starts_with-second a k p [] h = refl
starts_with-second a k p (x ∷ []) h = ground arith
starts_with-second a k p (x ∷ y ∷ s) h = ground arith

find_str-second : (a k : ℕ) (p s : Bytes) → lacks k s ≡ true → find_str (a ∷ k ∷ p) s ≡ none
unfolding find_str
find_str-second a k p [] h = refl
find_str-second a k p (x ∷ s) h =
    rw (starts_with-second a k p (x ∷ s) h) (ground (arith, find_str-second a k p s))

module _ (c : ℕ) (x : Bytes) (d : ℕ) (ds : Bytes) (h : IsHost c x d ds) where
  host_text-lacks_slash : lacks b'/' (host_text c x d ds) ≡ true
  host_text-lacks_slash =
      lacks-join b'/' (c ∷ x) (d ∷ ds) b':'
        (all-imp host_char (λ a. not (a == b'/')) (c ∷ x)
          (λ a e. ground (arith, host_char-slash a e)) h.name)
        (all-imp is_digit (λ a. not (a == b'/')) (d ∷ ds) (λ a e. ground (arith, digit-slash a e))
          h.digits)
        refl

  host_text-lacks_mark : lacks b'?' (host_text c x d ds) ≡ true
  host_text-lacks_mark =
      lacks-join b'?' (c ∷ x) (d ∷ ds) b':'
        (all-imp host_char (λ a. not (a == b'?')) (c ∷ x)
          (λ a e. ground (arith, host_char-slash a e)) h.name)
        (all-imp is_digit (λ a. not (a == b'?')) (d ∷ ds) (λ a e. ground (arith, digit-slash a e))
          h.digits)
        refl

  pub host_text-lacks_return : lacks 13 (host_text c x d ds) ≡ true
  host_text-lacks_return =
      lacks-join 13 (c ∷ x) (d ∷ ds) b':'
        (all-imp host_char (λ a. not (a == 13)) (c ∷ x) (λ a e. ground (arith, host_char-slash a e))
          h.name)
        (all-imp is_digit (λ a. not (a == 13)) (d ∷ ds) (λ a e. ground (arith, digit-slash a e))
          h.digits)
        refl

  -- The address that is stored.
  abbrev pub host_uri : Uri → Uri
  host_uri u = record u {
    has_err = false;
    scheme = no_scheme;
    ipv4 = c ∷ x;
    reg_name = c ∷ x;
    port = pos (read_digits 0 (d ∷ ds));
  }

  pub parse_uri-host_text :
      (u : Uri) → parse_uri u (host_text c x d ds) (flag_scheme + flag_authority) ≡ ok (host_uri u)
  unfolding parse_uri parse_authority
  parse_uri-host_text u =
      let s = host_text c x d ds in
      let whole : range s 0 (length s) ≡ ok s =
        range-take s 0 (length s) (omega arith) (omega arith)
        ∙ ap ok (take_all _ s (omega arith)) in
      rw
        (
          find_str-second b'/' b'/' [] s host_text-lacks_slash,
          find_str-second b':' b'/' (b'/' ∷ []) s host_text-lacks_slash,
          find_char-none b'?' s host_text-lacks_mark,
          find_char-none b'/' s host_text-lacks_slash,
          whole,
        )
        (rw
          (parse_authority_str-host_port (record u { scheme = no_scheme }) c x d ds h.name h.digits
            h.fits)
          refl)
