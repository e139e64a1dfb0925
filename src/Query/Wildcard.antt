-- ===== src/Query/Wildcard.antt =====
-- The matcher of core/src/query/wildcard_query.cpp. A string is the list of its bytes; a row of the
-- table is the list of its entries, from 0 to text.size().
pub mod Matches
use snii.Common.{
  ℕ, List, [], ◌∷◌, Bool, true, false, replicate, length, get_or, ◌==◌, ◌&&◌, ◌||◌, if◌then◌else◌,
}

abbrev pub star : ℕ
star = 0x2a

abbrev pub question : ℕ
question = 0x3f

unfoldable pub literal_prefix_for_wildcard : List ℕ → List ℕ
literal_prefix_for_wildcard [] = []
literal_prefix_for_wildcard (c ∷ cs) =
    let rest = literal_prefix_for_wildcard cs in
    if (c == star) || (c == question) then [] else c ∷ rest

-- `curr[i] = prev[i] || curr[i - 1]`; `left` is `curr[i - 1]`.
unfoldable pub star_loop : Bool → List Bool → List Bool
star_loop left [] = []
star_loop left (r ∷ prev) = (r || left) ∷ star_loop (r || left) prev

-- `curr[i] = prev[i - 1] && (p == '?' || p == text[i - 1])`
unfoldable pub char_loop : ℕ → List Bool → List ℕ → List Bool
char_loop p (r ∷ prev) (c ∷ text) = (r && ((p == question) || (p == c))) ∷ char_loop p prev text
char_loop p _ _ = []

-- One round of the loop over the pattern; `curr[0]` of a star is `prev[0]`.
unfoldable pub next_row : ℕ → List Bool → List ℕ → List Bool
next_row p prev text = if p == star then star_loop false prev else false ∷ char_loop p prev text

unfoldable pub pattern_loop : List ℕ → List Bool → List ℕ → List Bool
pattern_loop [] prev text = prev
pattern_loop (p ∷ pattern) prev text = pattern_loop pattern (next_row p prev text) text

unfoldable pub wildcard_match : List ℕ → List ℕ → Bool
wildcard_match pattern text =
    get_or (pattern_loop pattern (true ∷ replicate (length text) false) text) (length text) false
