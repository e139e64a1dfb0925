-- ===== src/Query/DocidSet/Ascending.antt =====
-- Ascending lists of document ids, as the queries of core/src/query hand them on.
use snii.Common.{ℕ, ◌<◌, ◌≤◌, ◌≡◌, refl, arith, List, [], ◌∷◌, ◌==◌, ◌||◌, Bool, true, false, All}

abbrev pub has : ℕ → List ℕ → Bool
has d [] = false
has d (x ∷ xs) = (d == x) || has d xs

abbrev pub Above : ℕ → List ℕ → Type 0
Above x xs = All (λ y. x < y) xs

-- Strictly ascending: no id stands twice.
abbrev pub IsAscending : List ℕ → Type 0
IsAscending [] = Unit {0}
IsAscending (x ∷ xs) = Above x xs × IsAscending xs

pub has-Above : (d x : ℕ) (xs : List ℕ) → d ≤ x → Above x xs → has d xs ≡ false
has-Above d x [] h a = refl
has-Above d x (y ∷ ys) h (l, a) = ground (arith, has-Above d x ys h a)

pub Above-Above : (x y : ℕ) (xs : List ℕ) → x ≤ y → Above y xs → Above x xs
Above-Above x y [] h a = tt
Above-Above x y (z ∷ zs) h (l, a) = (omega arith, Above-Above x y zs h a)

pub Above-has : (x d : ℕ) (xs : List ℕ) → Above x xs → has d xs ≡ true → x < d
Above-has x d [] a h = absurd cc
Above-has x d (y ∷ ys) (l, a) h = ground (arith, Above-has x d ys a)

-- Every member is above `x`.
pub has→Above : (x : ℕ) (xs : List ℕ) → ((d : ℕ) → has d xs ≡ true → x < d) → Above x xs
has→Above x [] f = tt
has→Above x (y ∷ ys) f = (f y (ground arith), has→Above x ys (λ d h. f d (rw h (∨-true (d == y)))))
  where
    ∨-true : (b : Bool) → (b || true) ≡ true
    ∨-true true = refl
    ∨-true false = refl
