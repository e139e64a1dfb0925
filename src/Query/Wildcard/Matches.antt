-- ===== src/Query/Wildcard/Matches.antt =====
-- wildcard_match and literal_prefix_for_wildcard of core/src/query/wildcard_query.cpp.
use snii.Common.{
  length-replicate, ◌∙◌, sym, Bool-cases, inl, inr, ℕ, zero, suc, ◌≡◌, refl, arith, List, [], ◌∷◌,
  ◌++◌, Bool, true, false, replicate, length, get_or, ◌==◌, ◌&&◌, ◌||◌, if◌then◌else◌, ap,
}
use snii.Query.Wildcard.{
  star, question, literal_prefix_for_wildcard, star_loop, char_loop, next_row, pattern_loop,
  wildcard_match,
}

-- `k` holds of some suffix.
unfoldable pub some_suffix : (List ℕ → Bool) → List ℕ → Bool
some_suffix k [] = k []
some_suffix k (c ∷ text) = k (c ∷ text) || some_suffix k text

unfoldable pub first_char : ℕ → (List ℕ → Bool) → List ℕ → Bool
first_char p k [] = false
first_char p k (c ∷ text) = ((p == question) || (p == c)) && k text

unfoldable pub is_empty : List ℕ → Bool
is_empty [] = true
is_empty (c ∷ text) = false

-- A star stands for any run of characters, a question mark for one, any other character for itself.
unfoldable pub matches : List ℕ → List ℕ → Bool
matches [] text = is_empty text
matches (p ∷ pattern) text =
    if p == star then some_suffix (matches pattern) text else first_char p (matches pattern) text

-- Some entry of the row is set where `k` holds of what is left of the text.
accepts : List Bool → List ℕ → (List ℕ → Bool) → Bool
accepts [] text k = false
accepts (r ∷ row) [] k = r && k []
accepts (r ∷ row) (c ∷ text) k = (r && k (c ∷ text)) || accepts row text k

star_accepts :
    (left : Bool) (row : List Bool) (text : List ℕ) (k : List ℕ → Bool)
    → length row ≡ suc (length text)
    → accepts (star_loop left row) text k
      ≡ ((left && some_suffix k text) || accepts row text (some_suffix k))
unfolding accepts star_loop some_suffix
star_accepts left [] text k h = absurd (omega arith)
star_accepts left (r ∷ row) [] k h = ground arith
star_accepts left (r ∷ row) (c ∷ text) k h = ground (arith, star_accepts (r || left) row text k)

char_accepts :
    (b : Bool) (p : ℕ) (row : List Bool) (text : List ℕ) (k : List ℕ → Bool)
    → length row ≡ suc (length text)
    → accepts (b ∷ char_loop p row text) text k
      ≡ ((b && k text) || accepts row text (first_char p k))
unfolding accepts char_loop first_char
char_accepts b p [] text k h = absurd (omega arith)
char_accepts b p (r ∷ row) [] k h = ground arith
char_accepts b p (r ∷ row) (c ∷ text) k h =
    ground (arith, char_accepts (r && ((p == question) || (p == c))) p row text k)

length-star_loop : (left : Bool) (row : List Bool) → length (star_loop left row) ≡ length row
unfolding star_loop
length-star_loop left [] = refl
length-star_loop left (r ∷ row) = ap suc (length-star_loop (r || left) row)

length-char_loop :
    (p : ℕ) (row : List Bool) (text : List ℕ)
    → length row ≡ suc (length text)
    → length (char_loop p row text) ≡ length text
unfolding char_loop
length-char_loop p [] text h = absurd (omega arith)
length-char_loop p (r ∷ row) [] h = refl
length-char_loop p (r ∷ row) (c ∷ text) h = ap suc (length-char_loop p row text (omega arith))

length-next_row :
    (p : ℕ) (row : List Bool) (text : List ℕ)
    → length row ≡ suc (length text)
    → length (next_row p row text) ≡ suc (length text)
unfolding next_row
length-next_row p row text h =
    ground (arith, length-star_loop false row, length-char_loop p row text h)

accepts-same :
    (row : List Bool) (text : List ℕ) (k k' : List ℕ → Bool)
    → ((rest : List ℕ) → k rest ≡ k' rest)
    → accepts row text k ≡ accepts row text k'
unfolding accepts
accepts-same [] text k k' e = refl
accepts-same (r ∷ row) [] k k' e = rw (e []) refl
accepts-same (r ∷ row) (c ∷ text) k k' e = rw (e (c ∷ text), accepts-same row text k k' e) refl

accepts-next_row :
    (p : ℕ) (pattern : List ℕ) (row : List Bool) (text : List ℕ)
    → length row ≡ suc (length text)
    → accepts (next_row p row text) text (matches pattern)
      ≡ accepts row text (matches (p ∷ pattern))
unfolding next_row
accepts-next_row p pattern row text h = elim (Bool-cases (p == star)) [
  | inl is_star ↦
      let same =
        accepts-same row text (some_suffix (matches pattern)) (matches (p ∷ pattern))
          (λ rest. unfold matches in rw is_star refl) in
      rw is_star (star_accepts false row text (matches pattern) h ∙ same)
  | inr no_star ↦
      let same =
        accepts-same row text (first_char p (matches pattern)) (matches (p ∷ pattern))
          (λ rest. unfold matches in rw no_star refl) in
      rw no_star (char_accepts false p row text (matches pattern) h ∙ same)
]

accepts_end :
    (row : List Bool) (text : List ℕ)
    → length row ≡ suc (length text)
    → accepts row text is_empty ≡ get_or row (length text) false
unfolding accepts is_empty
accepts_end [] text h = absurd (omega arith)
accepts_end (r ∷ row) [] h = ground arith
accepts_end (r ∷ row) (c ∷ text) h = ground (arith, accepts_end row text)

pattern_loop-accepts :
    (pattern : List ℕ) (row : List Bool) (text : List ℕ)
    → length row ≡ suc (length text)
    → get_or (pattern_loop pattern row text) (length text) false
      ≡ accepts row text (matches pattern)
unfolding pattern_loop
pattern_loop-accepts [] row text h = sym (
    accepts-same row text (matches []) is_empty (λ rest. unfold matches in refl)
    ∙ accepts_end row text h)
pattern_loop-accepts (p ∷ pattern) row text h =
    pattern_loop-accepts pattern (next_row p row text) text (length-next_row p row text h)
    ∙ accepts-next_row p pattern row text h

accepts-replicate :
    (n : ℕ) (text : List ℕ) (k : List ℕ → Bool) → accepts (replicate n false) text k ≡ false
unfolding accepts
accepts-replicate zero text k = refl
accepts-replicate (suc n) [] k = refl
accepts-replicate (suc n) (c ∷ text) k = accepts-replicate n text k

accepts_start :
    (text : List ℕ) (k : List ℕ → Bool)
    → accepts (true ∷ replicate (length text) false) text k ≡ k text
unfolding accepts
accepts_start [] k = ground arith
accepts_start (c ∷ text) k = ground (arith, accepts-replicate (suc (length text)) text k)

-- wildcard_match accepts a text exactly when the pattern matches the whole of it, a star standing for any
-- run of characters and a question mark for one.
pub wildcard_match-matches :
    (pattern text : List ℕ) → wildcard_match pattern text ≡ matches pattern text
unfolding wildcard_match
wildcard_match-matches pattern text =
    pattern_loop-accepts pattern (true ∷ replicate (length text) false) text
      (ap suc (length-replicate (length text) false))
    ∙ accepts_start text (matches pattern)

matches_begins :
    (pattern text : List ℕ)
    → matches pattern text ≡ true
    → (rest : List ℕ) × (text ≡ literal_prefix_for_wildcard pattern ++ rest)
unfolding matches literal_prefix_for_wildcard first_char
matches_begins [] text m = (text, refl)
matches_begins (p ∷ pattern) [] m = ([], ground arith)
matches_begins (p ∷ pattern) (c ∷ text) m = elim (Bool-cases ((p == star) || (p == question))) [
  | inl special ↦ (c ∷ text, rw special refl)
  | inr plain ↦
      let (rest, e) = matches_begins pattern text (ground arith) in
      (rest, rw plain (let same : c ≡ p = ground arith in rw (same, e) refl))
]

-- A text that wildcard_match accepts begins with literal_prefix_for_wildcard of the pattern, so that a
-- search among the terms with that prefix misses none.
pub literal_prefix_for_wildcard_lem :
    (pattern text : List ℕ)
    → wildcard_match pattern text ≡ true
    → (rest : List ℕ) × (text ≡ literal_prefix_for_wildcard pattern ++ rest)
literal_prefix_for_wildcard_lem pattern text h =
    matches_begins pattern text (rw wildcard_match-matches at h)
