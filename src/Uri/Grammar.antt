-- ===== src/Uri/Grammar.antt =====
-- The character classes of the URI grammar, and what the tests of uri/src/parser.cpp make of them.
use beemo.Common.{ℕ, Bool, true, ◌||◌, ◌≡◌, arith, ◌==◌}
use beemo.Text.{is_alpha, is_digit, is_ascii, on_char}
use beemo.Utils.Pattern.{TestsFor}
use beemo.Uri.Chars.{
  is_sub_delimiter, is_pchar, is_scheme_char, is_userinfo_char, is_host_char, is_future_char,
  is_query_char,
}

unreserved : ℕ → Bool
unfolding is_alpha is_digit
unreserved c = is_alpha c || is_digit c || c == b'-' || c == b'.' || c == b'_' || c == b'~'

unfoldable pub host_char : ℕ → Bool
unfolding unreserved is_sub_delimiter
host_char c = unreserved c || is_sub_delimiter c

unfoldable pub pchar : ℕ → Bool
unfolding host_char
pchar c = host_char c || c == b':' || c == b'@'

unfoldable pub scheme_char : ℕ → Bool
unfolding is_alpha is_digit
scheme_char c = c == b'+' || c == b'-' || c == b'.' || is_digit c || is_alpha c

unfoldable pub userinfo_char : ℕ → Bool
userinfo_char c = Bool.true

unfoldable pub future_char : ℕ → Bool
unfolding host_char
future_char c = host_char c || c == b':'

unfoldable pub query_char : ℕ → Bool
unfolding pchar
query_char c = pchar c || c == b'/' || c == b'?'

pub is_host_char-host_char : TestsFor is_host_char host_char
unfolding is_host_char host_char on_char
is_host_char-host_char c = ground arith

pub is_pchar-pchar : TestsFor is_pchar pchar
unfolding is_pchar pchar on_char
is_pchar-pchar c = ground arith

pub is_scheme_char-scheme_char : TestsFor is_scheme_char scheme_char
unfolding is_scheme_char scheme_char on_char
is_scheme_char-scheme_char c = ground arith

pub is_userinfo_char-userinfo_char : TestsFor is_userinfo_char userinfo_char
unfolding is_userinfo_char userinfo_char on_char
is_userinfo_char-userinfo_char c = ground arith

pub is_future_char-future_char : TestsFor is_future_char future_char
unfolding is_future_char future_char on_char
is_future_char-future_char c = ground arith

pub is_query_char-query_char : TestsFor is_query_char query_char
unfolding is_query_char query_char on_char
is_query_char-query_char c = ground arith

pub host_char-is_ascii : (c : ℕ) → host_char c ≡ true → is_ascii c ≡ true
unfolding host_char
host_char-is_ascii c h = ground arith

pub pchar-is_ascii : (c : ℕ) → pchar c ≡ true → is_ascii c ≡ true
unfolding pchar
pchar-is_ascii c h = ground arith

pub query_char-is_ascii : (c : ℕ) → query_char c ≡ true → is_ascii c ≡ true
unfolding query_char
query_char-is_ascii c h = ground arith
