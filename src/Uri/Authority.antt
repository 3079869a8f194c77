-- ===== src/Uri/Authority.antt =====
-- `parse_authority`: what it reads, and when it leaves its view.
use beemo.Common.{
  ℕ, ◌+◌, ◌-◌, ◌≤◌, ◌<◌, true, false, Option, none, some, ok, ◌≡◌, refl, arith, length, take, drop,
  all, Option-cases, inl, inr, Defined, ok-Defined, Defined-bind,
}
use beemo.Text.{Bytes, is_ascii, range-take, find_char, find_char_bound, find_char_from_bound}
use beemo.Utils.Pattern.{parse_pattern-all, all-true, all-take}
use beemo.Uri.{Uri}
use beemo.Uri.Chars.{is_userinfo_char}
use beemo.Uri.Grammar.{userinfo_char, is_userinfo_char-userinfo_char}
use beemo.Uri.Safety.{parse_port-Defined, parse_host-Defined}
use beemo.Uri.Parts.{parse_userinfo}
use beemo.Uri.Host.{parse_host}
use beemo.Uri.Parser.{port_colon, userinfo_part, host_part, parse_authority_str}

port_colon_bound :
    (auth : Bytes) (b : Option ℕ) {p : ℕ} → port_colon auth b ≡ some p → p < length auth
unfolding port_colon
port_colon_bound auth none h = find_char_bound b':' auth h
port_colon_bound auth (some l) h = (find_char_from_bound b':' auth l h).1

-- The part behind the user information.
host_port-Defined :
    (u : Uri) (auth : Bytes) (i : ℕ) (colon : Option ℕ)
    → i ≤ length auth
    → all is_ascii auth ≡ true
    → ((p : ℕ) → colon ≡ some p → (i ≤ p) × (p < length auth))
    → Defined (host_part auth i colon u)
unfolding host_part
host_port-Defined u auth i none h a k =
    Defined-bind (parse_host u auth i (length auth)) _
      (parse_host-Defined auth a i (length auth) h (omega arith) u) (λ u' _. ok-Defined _)
host_port-Defined u auth i (some p) h a k =
    let (lo, hi) = k p refl in
    Defined-bind (parse_host u auth i p) _ (parse_host-Defined auth a i p lo (omega arith) u)
      λ u' _. parse_port-Defined auth (p + 1) (length auth) (omega arith) (omega arith) u'

userinfo-true : (c : ℕ) → userinfo_char c ≡ true
unfolding userinfo_char
userinfo-true c = refl

-- Every user information of bytes below 128 is taken, and an error recorded before is cleared.
parse_userinfo_lem :
    (u : Uri) (s : Bytes) (i j : ℕ)
    → i ≤ j
    → j ≤ length s
    → all is_ascii (take (j - i) (drop i s)) ≡ true
    → parse_userinfo u s i j ≡ ok (record u { has_err = false; userinfo = take (j - i) (drop i s) })
unfolding parse_userinfo
parse_userinfo_lem u s i j h k a = rw (
  parse_pattern-all is_userinfo_char userinfo_char is_userinfo_char-userinfo_char s i j h k a,
  range-take s i j h k,
  all-true userinfo_char (take (j - i) (drop i s)) userinfo-true,
)

pub userinfo_part_lem :
    (u : Uri) (auth : Bytes) (i : ℕ)
    → i ≤ length auth
    → all is_ascii (take (i - 0) auth) ≡ true
    → userinfo_part u auth (some i)
      ≡ ok (record u { has_err = false; userinfo = take (i - 0) auth }, i + 1)
unfolding userinfo_part
userinfo_part_lem u auth i h a = rw (parse_userinfo_lem u auth 0 i (omega arith) h a)

-- Reading an authority that has no byte from 128 on does nothing undefined, unless a ':' that is
-- taken for the port's stands before the '@'.
pub parse_authority_str-Defined :
    (u : Uri) (auth : Bytes)
    → all is_ascii auth ≡ true
    → ((i p : ℕ)
        → find_char b'@' auth ≡ some i
        → port_colon auth (find_char b']' auth) ≡ some p
        → i < p)
    → Defined (parse_authority_str u auth)
unfolding parse_authority_str
parse_authority_str-Defined u auth a h = elim (Option-cases (find_char b'@' auth)) [
  | inl e ↦ rw e (
      host_port-Defined u auth 0 (port_colon auth (find_char b']' auth)) (omega arith) a
        λ p f. (omega arith, port_colon_bound auth _ f))
  | inr (i, e) ↦
      let bound = find_char_bound b'@' auth e in
      rw (e, userinfo_part_lem u auth i (omega arith) (all-take is_ascii (i - 0) auth a))
        (host_port-Defined _ auth (i + 1) (port_colon auth (find_char b']' auth)) (omega arith) a
          λ p f. (omega (arith, h i p e f), port_colon_bound auth _ f))
]
