-- ===== src/Http/MediaType.antt =====
-- `parse_content_type` on a media type with parameters.
use beemo.Common.{
  ℕ, suc, ◌+◌, ◌^◌, ◌<◌, Bool, true, false, List, [], ◌∷◌, ◌++◌, some, Result, ok, ◌≡◌, refl, ◌∙◌,
  arith, ◌==◌, length, all, &&-true, Bool-cases, inl, inr, length-append, take-length-append,
}
use beemo.Text.{Bytes, equal, equal_iff, lacks, find_char-hit}
use beemo.Keyword.{Kvp, downcase, keyword_val}
use beemo.Keyword.Reference.{keywords, lower, find_value, reference}
use beemo.Keyword.Search.{keyword_val-reference}
use beemo.Http.Err.{unsupported_media_type_handler}
use beemo.Http.Fields.{contains, find_field, read_field}
use beemo.Http.Msg.{Req, content_type_token, media_type_invalid}
use beemo.Http.Written.{substr_in}
use beemo.Http.WrittenText.{drop_behind}
use beemo.Http.Chunked.{sub_size}
use beemo.Http.Digits.{take_behind}
use beemo.Http.ChunkRound.{small_position, sub_size_lem}
use beemo.Http.Content.{read_content_type, parse_content_type}

downcase-semicolon : (c : ℕ) → (downcase c == b';') ≡ (c == b';')
unfolding downcase
downcase-semicolon c = ground arith

lacks-lower : (s : Bytes) → lacks b';' (lower s) ≡ lacks b';' s
lacks-lower [] = refl
lacks-lower (c ∷ s) = rw (downcase-semicolon c, lacks-lower s) refl

-- No keyword of the list has a ';'.
abbrev plain_words : List Kvp → Bool
plain_words = all (λ w. lacks b';' (lower w.key))

plain : plain_words keywords ≡ true
unfolding downcase
plain = refl

differ : (s t : Bytes) → lacks b';' s ≡ false → lacks b';' t ≡ true → equal s t ≡ false
differ s t h k = elim (Bool-cases (equal s t)) [
  | inr e ↦ e
  | inl e ↦ let same = (equal_iff s t).0 e in cc
]

find_value_none :
    (s : Bytes) (ws : List Kvp) → lacks b';' s ≡ false → plain_words ws ≡ true → find_value s ws ≡ 0
unfolding find_value
find_value_none s [] h k = refl
find_value_none s (w ∷ ws) h k =
    let (a, b) = &&-true (lacks b';' (lower w.key)) (plain_words ws) k in
    rw (differ s (lower w.key) h a) (find_value_none s ws h b)

-- A text with a ';' is no keyword.
keyword_val_semicolon : (s : Bytes) → length s < 2 ^ 32 → lacks b';' s ≡ false → keyword_val s ≡ 0
unfolding reference
keyword_val_semicolon s short h =
    keyword_val-reference s short ∙ find_value_none (lower s) keywords (lacks-lower s ∙ h) plain

ends-semicolon : (sub : Bytes) → lacks b';' (sub ++ b';' ∷ []) ≡ false
ends-semicolon [] = refl
ends-semicolon (c ∷ sub) = ground (arith, ends-semicolon sub)

-- A type, a subtype, and parameters.
abbrev pub with_parameters : Bytes → Bytes → Bytes → Bytes
with_parameters type sub params = type ++ (b'/' ∷ sub ++ (b';' ∷ params))

-- The outcome that sends 415.
abbrev pub IsUnsupported : Result Req → Type 0
IsUnsupported m = (r : Req) × (m ≡ ok r) × (r.err ≡ some unsupported_media_type_handler)

read_content_type_parameters :
    (r : Req) (type sub params : Bytes)
    → lacks b'/' type ≡ true
    → lacks b';' sub ≡ true
    → length (with_parameters type sub params) < 2 ^ 32
    → IsUnsupported (read_content_type r (with_parameters type sub params))
unfolding read_content_type
read_content_type_parameters r type sub params slash semicolon short =
    let value = with_parameters type sub params in
    let behind = b'/' ∷ sub ++ (b';' ∷ params) in
    let n = length type in
    let size : length value ≡ n + suc (length sub + suc (length params)) =
      omega (arith, length-append type behind, length-append sub (b';' ∷ params)) in
    let type_end = find_char-hit b'/' type (sub ++ (b';' ∷ params)) slash in
    let type_text = substr_in value 0 n (omega arith) in
    let prefix = take-length-append type behind in
    let rest = drop_behind type behind 0 n (omega arith) in
    let end = find_char-hit b';' (b'/' ∷ sub) params (rw semicolon refl) in
    let width : sub_size (n + suc (length sub)) n ≡ suc (length sub) =
      sub_size_lem (n + suc (length sub)) n (omega arith) (omega arith) ∙ omega arith in
    let sub_text = substr_in value (n + 1) (suc (length sub)) (omega arith) in
    let sub_rest = drop_behind type behind 1 (n + 1) refl in
    let cut = take_behind sub (b';' ∷ params) 1 (suc (length sub)) (omega arith) in
    let none_found =
      keyword_val_semicolon (sub ++ b';' ∷ []) (omega (arith, length-append sub (b';' ∷ [])))
        (ends-semicolon sub) in
    elim (Bool-cases (keyword_val type == media_type_invalid)) [
      | inl e ↦ rw (type_end, type_text, prefix, e) (_, refl, refl)
      | inr e ↦
          rw
            (
              type_end,
              type_text,
              prefix,
              e,
              rest,
              end,
              small_position (n + 1) (omega arith),
              width,
              sub_text,
              sub_rest,
              cut,
              none_found,
            )
            (_, refl, refl)
    ]

-- A content type that has parameters is refused with 415, whatever its type, subtype and
-- parameters: the ';' is looked up as the subtype's last byte.
pub parse_content_type_parameters :
    (r : Req) (type sub params : Bytes)
    → find_field content_type_token r.fields ≡ some (with_parameters type sub params)
    → lacks b'/' type ≡ true
    → lacks b';' sub ≡ true
    → length (with_parameters type sub params) < 2 ^ 32
    → IsUnsupported (parse_content_type r)
unfolding parse_content_type contains read_field
parse_content_type_parameters r type sub params field slash semicolon short =
    rw (field, field) (read_content_type_parameters r type sub params slash semicolon short)
