-- ===== src/Uri/Chars.antt =====
-- The character classes at the top of uri/src/parser.cpp.
use beemo.Common.{◌>>=◌, ℕ, Bool, ◌||◌, ◌==◌, Result, ok}
use beemo.Text.{is_alpha, is_digit, on_char}

-- `isalpha` is called for every byte.
unfoldable pub is_unreserved : ℕ → Result Bool
unfolding is_alpha is_digit on_char
is_unreserved c = do
  letter ← on_char is_alpha c
  digit ← on_char is_digit c
  ok (letter || digit || c == b'-' || c == b'.' || c == b'_' || c == b'~')

unfoldable pub is_gen_delimiter : ℕ → Bool
is_gen_delimiter c =
    c == b':' || c == b'/' || c == b'?' || c == b'#' || c == b'[' || c == b']' || c == b'@'

unfoldable pub is_sub_delimiter : ℕ → Bool
is_sub_delimiter c =
    c == b'!'
    || c == b'$'
    || c == b'&'
    || c == 39
    || c == b'('
    || c == b')'
    || c == b'*'
    || c == b'+'
    || c == b','
    || c == b';'
    || c == b'='

unfoldable pub is_reserved : ℕ → Bool
unfolding is_gen_delimiter is_sub_delimiter
is_reserved c = is_gen_delimiter c || is_sub_delimiter c

unfoldable pub is_pchar : ℕ → Result Bool
unfolding is_unreserved is_sub_delimiter
is_pchar c = do
  unreserved ← is_unreserved c
  ok (unreserved || is_sub_delimiter c || c == b':' || c == b'@')

-- The predicates that the parsers hand to `parse_pattern`.
-- None of the three bytes is from 128 on, so `isdigit` is called for each byte that is.
unfoldable pub is_scheme_char : ℕ → Result Bool
unfolding is_alpha is_digit on_char
is_scheme_char c = do
  digit ← on_char is_digit c
  letter ← on_char is_alpha c
  ok (c == b'+' || c == b'-' || c == b'.' || digit || letter)

-- `is_unreserved(c) || is_sub_delimiter(c) || ':'`: the last operand is the character itself, not
-- a comparison, and so it is true.
unfoldable pub is_userinfo_char : ℕ → Result Bool
unfolding is_unreserved is_sub_delimiter
is_userinfo_char c = do
  unreserved ← is_unreserved c
  ok (unreserved || is_sub_delimiter c || Bool.true)

unfoldable pub is_host_char : ℕ → Result Bool
unfolding is_unreserved is_sub_delimiter
is_host_char c = do unreserved ← is_unreserved c; ok (unreserved || is_sub_delimiter c)

unfoldable pub is_future_char : ℕ → Result Bool
unfolding is_unreserved is_sub_delimiter
is_future_char c = do
  unreserved ← is_unreserved c
  ok (unreserved || is_sub_delimiter c || c == b':')

unfoldable pub is_query_char : ℕ → Result Bool
unfolding is_pchar
is_query_char c = do pchar ← is_pchar c; ok (pchar || c == b'/' || c == b'?')
