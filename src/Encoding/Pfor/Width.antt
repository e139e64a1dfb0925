-- ===== src/Encoding/Pfor/Width.antt =====
-- bits_for and choose_width of core/src/encoding/pfor.cpp, beside the cost of a width.
use snii.Common.{ap}
use native.Mathlib.Nat.{mul-le-mul_right}
use snii.Encoding.Pfor.{exceptions}
use snii.Common.Digits.{pow_mono}
use snii.Common.{
  false, true, ℕ, zero, suc, ◌+◌, ◌/◌, ◌^◌, ◌<◌, ◌≤◌, ◌≡◌, refl, arith, List, [], ◌∷◌, All, length,
  ltb, ◌==◌, Bool-cases, inl, inr, if◌then◌else◌, not, max, ltb→lt, le→ltb, lt→ltb, ◌*◌,
}
use native.Mathlib.Decide.{dec_lt}
use native.Mathlib.Nat.{pow-suc}
use snii.Encoding.Varint.RoundTrip.{IsU32}
use snii.Encoding.Pfor.{bits_loop, bits_for, max_width, cost, size_max, width_loop, choose_width}

-- A value fits `b` bits, and no fewer.
abbrev pub HasWidth : ℕ → ℕ → Type 0
HasWidth v b = (v < 2 ^ b) × ((w : ℕ) → v < 2 ^ w → b ≤ w)

bits_loop_shift : (rounds v b : ℕ) → bits_loop rounds v b ≡ b + bits_loop rounds v 0
unfolding bits_loop
bits_loop_shift zero v b = omega arith
bits_loop_shift (suc rounds) v b =
    ground (arith, bits_loop_shift rounds (v / 2) (b + 1), bits_loop_shift rounds (v / 2) 1)

half-HasWidth : (v b : ℕ) → 0 < v → HasWidth (v / 2) b → HasWidth v (suc b)
half-HasWidth v b pos (fits, least) = (
  omega (arith, pow-suc 2 b),
  λ w. elim w as (λ k. v < 2 ^ k → suc b ≤ k) [
    | zero ↦ λ h. absurd (omega arith)
    | suc k ↦ λ h. omega (arith, least k (omega (arith, pow-suc 2 k)))
  ],
)

bits_loop-HasWidth : (rounds v : ℕ) → v < 2 ^ rounds → HasWidth v (bits_loop rounds v 0)
unfolding bits_loop
bits_loop-HasWidth zero v h = (h, λ w l. omega arith)
bits_loop-HasWidth (suc rounds) v h = elim (Bool-cases (v == 0)) [
  | inl none ↦ rw none (ground arith, λ w l. omega arith)
  | inr some ↦
      rw (some, counts)
        (half-HasWidth v (bits_loop rounds (v / 2) 0) (ground arith)
          (bits_loop-HasWidth rounds (v / 2) (omega (arith, pow-suc 2 rounds))))
]
  where
    counts : bits_loop rounds (v / 2) 1 ≡ suc (bits_loop rounds (v / 2) 0)
    counts = omega (arith, bits_loop_shift rounds (v / 2) 1)

-- bits_for of a uint32 is the least number of bits that the value fits.
pub bits_for-HasWidth : (v : ℕ) → IsU32 v → HasWidth v (bits_for v)
unfolding bits_for
bits_for-HasWidth v h = bits_loop-HasWidth 32 v h

-- The values of a run that do not fit `w` bits.
abbrev oversize : List ℕ → ℕ → ℕ
oversize [] w = 0
oversize (v ∷ vs) w = if ltb v (2 ^ w) then oversize vs w else oversize vs w + 1

-- The bytes of a run packed with `w` bits for each value, with six bytes for each that does not fit.
abbrev pub bytes_at : List ℕ → ℕ → ℕ
bytes_at vs w = (w * length vs + 7) / 8 + 6 * oversize vs w

bits_for-ltb : (v w : ℕ) → IsU32 v → ltb w (bits_for v) ≡ not (ltb v (2 ^ w))
bits_for-ltb v w h = elim (Bool-cases (ltb v (2 ^ w))) [
  | inl fits ↦ rw fits (le→ltb w (bits_for v) ((bits_for-HasWidth v h).1 w (ltb→lt _ _ fits)))
  | inr large ↦ rw large (lt→ltb w (bits_for v) (above large))
]
  where
    above : ltb v (2 ^ w) ≡ false → w < bits_for v
    above large = elim (dec_lt w (bits_for v)) [
      | yes l ↦ l
      | no n ↦
          absurd (
            ground (arith, large, (bits_for-HasWidth v h).0, pow_mono (bits_for v) w (omega arith)))
    ]

exceptions-oversize :
    (vs : List ℕ) (w exc : ℕ) → All IsU32 vs → exceptions w vs exc ≡ exc + oversize vs w
unfolding exceptions
exceptions-oversize [] w exc h = omega arith
exceptions-oversize (v ∷ vs) w exc h = elim (Bool-cases (ltb v (2 ^ w))) [
  | inl fits ↦ rw (bits_for-ltb v w h.0, fits) (exceptions-oversize vs w exc h.1)
  | inr large ↦
      rw (bits_for-ltb v w h.0, large) (omega (arith, exceptions-oversize vs w (exc + 1) h.1))
]

oversize-le : (vs : List ℕ) (w : ℕ) → oversize vs w ≤ length vs
oversize-le [] w = omega arith
oversize-le (v ∷ vs) w = ground (arith, oversize-le vs w)

-- A run whose bytes a size_t can count.
abbrev pub IsRun : List ℕ → Type 0
IsRun vs = All IsU32 vs × (length vs < 2 ^ 58)

cost-bytes_at : (vs : List ℕ) (w : ℕ) → IsRun vs → w ≤ 32 → cost vs w ≡ bytes_at vs w
unfolding cost
cost-bytes_at vs w v h =
    rw (exceptions-oversize vs w 0 v.0)
      (omega (arith, oversize-le vs w, mul-le-mul_right (length vs) h, v.1))

max_width-ge : (vs : List ℕ) (maxw : ℕ) → maxw ≤ max_width vs maxw
unfolding max_width
max_width-ge [] maxw = omega arith
max_width-ge (v ∷ vs) maxw = omega (arith, max_width-ge vs (max maxw (bits_for v)))

bits_for-le : (v : ℕ) → IsU32 v → bits_for v ≤ 32
bits_for-le v h = (bits_for-HasWidth v h).1 32 h

max_width-le : (vs : List ℕ) (maxw : ℕ) → All IsU32 vs → maxw ≤ 32 → max_width vs maxw ≤ 32
unfolding max_width
max_width-le [] maxw h le = le
max_width-le (v ∷ vs) maxw h le =
    max_width-le vs (max maxw (bits_for v)) h.1 (omega (arith, bits_for-le v h.0))

-- All values fit the width of the widest.
oversize-max_width :
    (vs : List ℕ) (maxw w : ℕ) → All IsU32 vs → max_width vs maxw ≤ w → oversize vs w ≡ 0
unfolding max_width
oversize-max_width [] maxw w h le = refl
oversize-max_width (v ∷ vs) maxw w h le =
    rw (lt→ltb v (2 ^ w) fits) (oversize-max_width vs (max maxw (bits_for v)) w h.1 le)
  where
    fits : v < 2 ^ w
    fits = omega (
      arith,
      (bits_for-HasWidth v h.0).0,
      pow_mono (bits_for v) w (omega (arith, max_width-ge vs (max maxw (bits_for v)))),
    )

-- The least of the cheapest widths below `w`.
record IsBest (f : ℕ → ℕ) (w best : ℕ) : Type 0 where
  within : best < w
  cheapest : (w' : ℕ) → w' < w → f best ≤ f w'
  least : (w' : ℕ) → w' < best → f best < f w'

IsBest-better : (f : ℕ → ℕ) (w best : ℕ) → IsBest f w best → f w < f best → IsBest f (w + 1) w
IsBest-better f w best v less = record {
  within = omega arith;
  cheapest = λ w' h. elim (dec_lt w' w) [
    | yes l ↦ omega (arith, v.cheapest w' l)
    | no n ↦ let same : w' ≡ w = omega arith in rw same (omega arith)
  ];
  least = λ w' h. omega (arith, v.cheapest w' h);
}

IsBest-same : (f : ℕ → ℕ) (w best : ℕ) → IsBest f w best → f best ≤ f w → IsBest f (w + 1) best
IsBest-same f w best v no_less = record {
  within = omega (arith, v.within);
  cheapest = λ w' h. elim (dec_lt w' w) [
    | yes l ↦ v.cheapest w' l
    | no n ↦ let same : w' ≡ w = omega arith in rw same no_less
  ];
  least = v.least;
}

module _ (vs : List ℕ) (maxw : ℕ) where
  width_loop_lem :
      (rounds w best : ℕ)
      → w + rounds ≡ maxw + 1
      → IsBest (cost vs) w best
      → IsBest (cost vs) (maxw + 1) (width_loop vs rounds w best (cost vs best))
  unfolding width_loop
  width_loop_lem zero w best e v = let same : w ≡ maxw + 1 = omega arith in rw same at v
  width_loop_lem (suc rounds) w best e v = elim (Bool-cases (ltb (cost vs w) (cost vs best))) [
    | inl better ↦ rw better (
        width_loop_lem rounds (w + 1) w (omega arith)
          (IsBest-better (cost vs) w best v (ltb→lt _ _ better)))
    | inr same ↦ rw same (
        width_loop_lem rounds (w + 1) best (omega arith)
          (IsBest-same (cost vs) w best v (ground (arith, same))))
  ]

IsBest-first : (f : ℕ → ℕ) → IsBest f 1 0
IsBest-first f = record {
  within = omega arith;
  cheapest = λ w' h. let first : w' ≡ 0 = omega arith in rw first (omega arith);
  least = λ w' h. absurd (omega arith);
}

first_better : (vs : List ℕ) → IsRun vs → ltb (cost vs 0) size_max ≡ true
first_better vs v =
    lt→ltb _ _ (omega (arith, cost-bytes_at vs 0 v (omega arith), oversize-le vs 0, v.1))

-- The first round replaces the width that the loop starts with.
first_round :
    (vs : List ℕ) (rounds best : ℕ)
    → IsRun vs
    → width_loop vs (suc rounds) 0 best size_max ≡ width_loop vs rounds 1 0 (cost vs 0)
unfolding width_loop
first_round vs rounds best v = rw (first_better vs v) refl

choose_width-IsBest :
    (vs : List ℕ) → IsRun vs → IsBest (cost vs) (max_width vs 0 + 1) (choose_width vs)
unfolding choose_width
choose_width-IsBest vs v =
    rw (rounds, first_round vs (max_width vs 0) (max_width vs 0) v)
      (width_loop_lem vs (max_width vs 0) (max_width vs 0) 1 0 (omega arith) (IsBest-first _))
  where
    rounds :
        width_loop vs (max_width vs 0 + 1) 0 (max_width vs 0) size_max
        ≡ width_loop vs (suc (max_width vs 0)) 0 (max_width vs 0) size_max
    rounds = ap (λ n. width_loop vs n 0 (max_width vs 0) size_max) (omega arith)

-- No width costs less than `best`, and a smaller one costs more.
pub record IsLeastWidth (vs : List ℕ) (best : ℕ) : Type 0 where
  pub cheapest : (w : ℕ) → bytes_at vs best ≤ bytes_at vs w
  pub least : (w : ℕ) → w < best → bytes_at vs best < bytes_at vs w

-- For a run of fewer than 2 ^ 58 uint32 values, the width that choose_width gives is the least among
-- those of the fewest bytes, counted with six for each value that does not fit: no width at all, from 0
-- on, takes fewer bytes, and each smaller one takes more.
pub choose_width_lem : (vs : List ℕ) → IsRun vs → IsLeastWidth vs (choose_width vs)
choose_width_lem vs v = record {
  cheapest = λ w. elim (dec_lt w (max_width vs 0 + 1)) [
    | yes l ↦ upto w l
    | no n ↦
        let high : max_width vs 0 ≤ w = omega arith in
        omega (
          arith,
          upto (max_width vs 0) (omega arith),
          oversize-max_width vs 0 (max_width vs 0) v.0 (omega arith),
          mul-le-mul_right (length vs) high,
        )
  ];
  least = λ w h.
      rw
        (
          ← cost-bytes_at vs (choose_width vs) v (omega (arith, top, best.within)),
          ← cost-bytes_at vs w v (omega (arith, top, best.within)),
        )
        (best.least w h);
}
  where
    best : IsBest (cost vs) (max_width vs 0 + 1) (choose_width vs)
    best = choose_width-IsBest vs v

    top : max_width vs 0 ≤ 32
    top = max_width-le vs 0 v.0 (omega arith)

    upto : (w : ℕ) → w < max_width vs 0 + 1 → bytes_at vs (choose_width vs) ≤ bytes_at vs w
    upto w h =
        rw
          (
            ← cost-bytes_at vs (choose_width vs) v (omega (arith, top, best.within)),
            ← cost-bytes_at vs w v (omega (arith, top)),
          )
          (best.cheapest w h)
