-- ===== src/Encoding/Pfor.antt =====
-- bits_for and choose_width of core/src/encoding/pfor.cpp
pub mod Width
use snii.Common.{
  ℕ, zero, suc, ◌+◌, ◌-◌, ◌*◌, ◌/◌, ◌%◌, ◌^◌, List, [], ◌∷◌, length, ltb, ◌==◌, max, if◌then◌else◌,
}

-- `while (v)`, with a round for each of the 32 bits.
unfoldable pub bits_loop : ℕ → ℕ → ℕ → ℕ
bits_loop zero v b = b
bits_loop (suc rounds) v b =
    let rest = bits_loop rounds (v / 2) (b + 1) in if v == 0 then b else rest

unfoldable pub bits_for : ℕ → ℕ
bits_for v = bits_loop 32 v 0

-- The two inner loops of choose_width.
unfoldable pub max_width : List ℕ → ℕ → ℕ
max_width [] maxw = maxw
max_width (v ∷ vs) maxw = max_width vs (max maxw (bits_for v))

unfoldable pub exceptions : ℕ → List ℕ → ℕ → ℕ
exceptions w [] exc = exc
exceptions w (v ∷ vs) exc =
    let counted = exceptions w vs (exc + 1) in
    let skipped = exceptions w vs exc in if ltb w (bits_for v) then counted else skipped

unfoldable pub cost : List ℕ → ℕ → ℕ
cost vs w = ((w * length vs + 7) % 2 ^ 64 / 8 + exceptions w vs 0 * 6) % 2 ^ 64

abbrev pub size_max : ℕ
size_max = 2 ^ 64 - 1

-- `for (int w = 0; w <= maxw; ++w)`, `rounds` left.
unfoldable pub width_loop : List ℕ → ℕ → ℕ → ℕ → ℕ → ℕ
width_loop vs zero w best best_cost = best
width_loop vs (suc rounds) w best best_cost =
    let better = width_loop vs rounds (w + 1) w (cost vs w) in
    let same = width_loop vs rounds (w + 1) best best_cost in
    if ltb (cost vs w) best_cost then better else same

unfoldable pub choose_width : List ℕ → ℕ
choose_width vs = let maxw = max_width vs 0 in width_loop vs (maxw + 1) 0 maxw size_max
