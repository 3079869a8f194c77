-- ===== src/Keyword/Reference.antt =====
-- What the generated table stands for: the list of http/gperf/http_keyword_hash.gperf, searched from
-- its start, without regard to case.
use Prim.Native.String.{String}
use beemo.Common.{ℕ, List, [], ◌∷◌, map, if◌then◌else◌}
use beemo.Text.{Bytes, codes, equal}
use beemo.Keyword.{Kvp, downcase}

abbrev word : String → ℕ → Kvp
word s v = record { key = codes s; value = v }

abbrev pub keywords : List Kvp
keywords =
    word "GET" 1
    ∷ word "POST" 2
    ∷ word "OPTIONS" 3
    ∷ word "HEAD" 4
    ∷ word "PUT" 5
    ∷ word "DELETE" 6
    ∷ word "TRACE" 7
    ∷ word "CONNECT" 8
    ∷ word "EXTENSION" 9
    ∷ word "keep-alive" 1
    ∷ word "close" 2
    ∷ word "chunked" 1
    ∷ word "identity" 2
    ∷ word "gzip" 3
    ∷ word "compress" 4
    ∷ word "deflate" 5
    ∷ word "text" 2
    ∷ word "application" 1
    ∷ word "json" 2
    ∷ word "html" 1
    ∷ word "utf-8" 1
    ∷ []

abbrev pub lower : Bytes → Bytes
lower = map downcase

-- The value of the first keyword that the text spells, and 0 if there is none.
unfoldable pub find_value : Bytes → List Kvp → ℕ
unfolding equal downcase
find_value s [] = 0
find_value s (w ∷ ws) = if equal s (lower w.key) then w.value else find_value s ws

unfoldable pub reference : Bytes → ℕ
unfolding find_value
reference s = find_value (lower s) keywords
