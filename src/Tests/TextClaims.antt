-- ===== src/Tests/TextClaims.antt =====
-- The theorems on utils/ and on the keyword table at concrete inputs.
use beemo.Common.{true, false, [], ◌∷◌, ◌≡◌, refl, arith}
use beemo.Text.{codes}
use beemo.Utils.{parse_list}
use beemo.Utils.Lists.{parse_list-written}
use beemo.Keyword.{keyword_val}
use beemo.Keyword.Search.{keyword_val-reference}
use beemo.Keyword.Reference.{reference}

parse_list-written_example :
    parse_list (codes "gzip, chunked,br") ≡ codes "gzip" ∷ codes "chunked" ∷ codes "br" ∷ []
parse_list-written_example =
    parse_list-written (codes "gzip") ((true, codes "chunked") ∷ (false, codes "br") ∷ [])
      (refl, refl) ((refl, refl), ((refl, refl), tt))

keyword_val-reference_example : keyword_val (codes "ChunkED") ≡ 1
unfolding reference
keyword_val-reference_example = keyword_val-reference (codes "ChunkED") (omega arith)
