-- ===== src/Writer/PostingPool/Memory.antt =====
-- The bytes that core/src/writer/compact_posting_pool.cpp stores.
use snii.Common.{
  ◌∷◌, ◌⊎◌, ap, [], List, ◌++◌, length, ℕ, zero, suc, ◌+◌, ◌/◌, ◌%◌, ◌^◌, ◌≤◌, ◌<◌, ◌≡◌, refl,
  arith, ==_self,
}
use snii.Writer.PostingPool.{read_ptr, write_ptr, Bytes, store}

pub store_same : (mem : Bytes) (off v : ℕ) → store mem off v off ≡ v
unfolding store
store_same mem off v = rw (==_self off) refl

pub store_other : (mem : Bytes) (off v o : ℕ) → ¬ (o ≡ off) → store mem off v o ≡ mem o
unfolding store
store_other mem off v o h = ground (arith, h)

-- The bytes outside a forward pointer.
pub write_ptr_other :
    (mem : Bytes) (end next o : ℕ) → (o < end) ⊎ (end + 4 ≤ o) → write_ptr mem end next o ≡ mem o
unfolding write_ptr
write_ptr_other mem end next o h =
    rw
      (store_other
        (store (store (store mem end (next % 2 ^ 8)) (end + 1) (next / 2 ^ 8 % 2 ^ 8)) (end + 2)
          (next / 2 ^ 16 % 2 ^ 8))
        (end + 3) (next / 2 ^ 24 % 2 ^ 8) o (λ e. ground (arith, h, e)))
      (rw
        (store_other (store (store mem end (next % 2 ^ 8)) (end + 1) (next / 2 ^ 8 % 2 ^ 8))
          (end + 2) (next / 2 ^ 16 % 2 ^ 8) o (λ e. ground (arith, h, e)))
        (rw
          (store_other (store mem end (next % 2 ^ 8)) (end + 1) (next / 2 ^ 8 % 2 ^ 8) o
            (λ e. ground (arith, h, e)))
          (store_other mem end (next % 2 ^ 8) o (λ e. ground (arith, h, e)))))

pub read_ptr-write_ptr :
    (mem : Bytes) (end next : ℕ) → next < 2 ^ 32 → read_ptr (write_ptr mem end next) end ≡ next
unfolding read_ptr write_ptr store
read_ptr-write_ptr mem end next h = ground arith

-- Two memories agree on some offsets.
abbrev pub Agree : (ℕ → Type 0) → Bytes → Bytes → Type 0
Agree P mem mem' = (o : ℕ) → P o → mem' o ≡ mem o

pub read_ptr-Agree :
    (mem mem' : Bytes) (end : ℕ)
    → Agree (λ o. (end ≤ o) × (o < end + 4)) mem mem'
    → read_ptr mem' end ≡ read_ptr mem end
unfolding read_ptr
read_ptr-Agree mem mem' end h =
    rw
      (
        h end (omega arith, omega arith),
        h (end + 1) (omega arith, omega arith),
        h (end + 2) (omega arith, omega arith),
        h (end + 3) (omega arith, omega arith),
      )
      refl

-- `n` bytes from an offset on.
abbrev pub run : Bytes → ℕ → ℕ → List ℕ
run mem off zero = []
run mem off (suc n) = mem off ∷ run mem (off + 1) n

pub run-Agree :
    (mem mem' : Bytes) (off n : ℕ)
    → Agree (λ o. (off ≤ o) × (o < off + n)) mem mem'
    → run mem' off n ≡ run mem off n
run-Agree mem mem' off zero h = refl
run-Agree mem mem' off (suc n) h =
    rw
      (
        h off (omega arith, omega arith),
        run-Agree mem mem' (off + 1) n (λ o r. h o (omega arith, omega arith)),
      )
      refl

-- One byte more at the end.
pub run-suc :
    (mem : Bytes) (off n : ℕ) → run mem off (suc n) ≡ run mem off n ++ (mem (off + n) ∷ [])
run-suc mem off zero = ap (λ (o : ℕ). mem o ∷ []) (omega arith)
run-suc mem off (suc n) = rw (run-suc mem (off + 1) n, one_more) refl
  where
    one_more : off + 1 + n ≡ off + suc n
    one_more = omega arith

pub length-run : (mem : Bytes) (off n : ℕ) → length (run mem off n) ≡ n
length-run mem off zero = refl
length-run mem off (suc n) = ap suc (length-run mem (off + 1) n)
