-- ===== src/Format/Bsbf/Words.antt =====
-- The words of a block and their bytes (core/src/format/bsbf.cpp, block_contains_scalar).
use snii.Common.{
  ℕ, zero, suc, ◌+◌, ◌*◌, ◌≤◌, ◌<◌, ◌≡◌, refl, ap, arith, List, [], ◌∷◌, ◌++◌, length, take, drop,
  get_or, All,
}
use snii.Format.Bsbf.{find_masks, block_loop}
use snii.Format.Bsbf.RoundTrip.{load_le32-store_le32}
use snii.Format.Bsbf.Header.{store_le32, word_bytes}
use snii.Format.Bsbf.Filter.{get_or-IsWord, IsWord}

pub length-word_bytes : (ws : List ℕ) → length (word_bytes ws) ≡ 4 * length ws
unfolding word_bytes store_le32
length-word_bytes [] = refl
length-word_bytes (w ∷ ws) = omega (arith, length-word_bytes ws)

-- The bytes from a word on.
drop-word_bytes :
    (ws : List ℕ) (at : ℕ)
    → at < length ws
    → drop (4 * at) (word_bytes ws)
      ≡ store_le32 (get_or ws at 0) ++ drop (4 * (at + 1)) (word_bytes ws)
unfolding word_bytes store_le32
drop-word_bytes [] at h = absurd (omega arith)
drop-word_bytes (w ∷ ws) zero h = refl
drop-word_bytes (w ∷ ws) (suc at) h = rw (four at, next) (drop-word_bytes ws at (omega arith))
  where
    four : (n : ℕ) → 4 * suc n ≡ suc (suc (suc (suc (4 * n))))
    four n = omega arith

    next : 4 * (suc at + 1) ≡ suc (suc (suc (suc (4 * (at + 1)))))
    next = omega arith

take_word :
    (n : ℕ) (w : ℕ) (rest : List ℕ)
    → take (4 * suc n) (store_le32 w ++ rest) ≡ store_le32 w ++ take (4 * n) rest
unfolding store_le32
take_word n w rest = rw four refl
  where
    four : 4 * suc n ≡ suc (suc (suc (suc (4 * n))))
    four = omega arith

drop_word : (w : ℕ) (rest : List ℕ) → drop 4 (store_le32 w ++ rest) ≡ rest
unfolding store_le32
drop_word w rest = refl

pub block_loop-find_masks :
    (ms ws : List ℕ) (at : ℕ)
    → All IsWord ws
    → at + length ms ≤ length ws
    → block_loop ms (take (4 * length ms) (drop (4 * at) (word_bytes ws))) ≡ find_masks ms ws at
unfolding block_loop find_masks
block_loop-find_masks [] ws at v h = refl
block_loop-find_masks (m ∷ ms) ws at v h =
    rw
      (
        drop-word_bytes ws at (omega arith),
        take_word (length ms) (get_or ws at 0) (drop (4 * (at + 1)) (word_bytes ws)),
      )
      (rw
        (
          load_le32-store_le32 (get_or ws at 0)
              (take (4 * length ms) (drop (4 * (at + 1)) (word_bytes ws))) (get_or-IsWord ws at v),
          drop_word (get_or ws at 0) (take (4 * length ms) (drop (4 * (at + 1)) (word_bytes ws))),
        )
        (rw (block_loop-find_masks ms ws (at + 1) v (omega arith)) refl))

pub drop-beyond : (xs ys : List ℕ) (n : ℕ) → drop (length xs + n) (xs ++ ys) ≡ drop n ys
drop-beyond [] ys n = ap (λ (k : ℕ). drop k ys) (omega arith)
drop-beyond (x ∷ xs) ys n = rw one_more (drop-beyond xs ys n)
  where
    one_more : suc (length xs) + n ≡ suc (length xs + n)
    one_more = omega arith

pub take-drop-within :
    (xs ys : List ℕ) (n k : ℕ) → n + k ≤ length xs → take k (drop n (xs ++ ys)) ≡ take k (drop n xs)
take-drop-within xs ys zero zero h = refl
take-drop-within [] ys zero (suc k) h = absurd (omega arith)
take-drop-within (x ∷ xs) ys zero (suc k) h =
    ap (λ t. x ∷ t) (take-drop-within xs ys zero k (omega arith))
take-drop-within [] ys (suc n) zero h = absurd (omega arith)
take-drop-within [] ys (suc n) (suc k) h = absurd (omega arith)
take-drop-within (x ∷ xs) ys (suc n) k h = take-drop-within xs ys n k (omega arith)

pub length-take-within : (k : ℕ) (xs : List ℕ) → k ≤ length xs → length (take k xs) ≡ k
length-take-within zero xs h = refl
length-take-within (suc k) [] h = absurd (omega arith)
length-take-within (suc k) (x ∷ xs) h = ap suc (length-take-within k xs (omega arith))

pub take-all : (n : ℕ) (xs : List ℕ) → length xs ≤ n → take n xs ≡ xs
take-all zero [] h = refl
take-all zero (x ∷ xs) h = absurd (omega arith)
take-all (suc n) [] h = refl
take-all (suc n) (x ∷ xs) h = ap (λ t. x ∷ t) (take-all n xs (omega arith))
