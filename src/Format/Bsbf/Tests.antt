-- ===== src/Format/Bsbf/Tests.antt =====
-- Runs of core/src/format/bsbf.cpp at concrete inputs.
use snii.Common.{All, ◌-◌}
use snii.Common.{◌/◌}
use snii.Format.Bsbf.Sizing.{Doubles}
use snii.Format.Bsbf.Header.{serialize}
use snii.Format.Bsbf.Sizes.{Truncates}
use snii.Format.Bsbf.Header.{bsbf_probe, parse}
use snii.Format.Bsbf.{
  create_sized, bsbf_block_index, masks_scalar, insert_masks, find_masks, find_scalar,
  insert_scalar, BsbfBuilder, insert, maybe_contains,
}
use snii.Format.Bsbf.Probe.{bsbf_probe-serialize}
use snii.Format.Bsbf.Sizes.{
  create-IsStored, insert-IsStored, round_num_bytes_lem, Truncates, IsSizeFor, IsStored,
}
use snii.Format.Bsbf.Fresh.{maybe_contains-create_sized, IsElsewhere}
use snii.Format.Bsbf.Keeps.{maybe_contains-insert, insert_all}
use snii.Format.Bsbf.Sizing.{create, next_power, round_num_bytes}
use snii.Common.{
  ◌*◌, ℕ, ◌≡◌, refl, arith, true, false, List, [], ◌∷◌, ◌++◌, take, drop, replicate, ltb,
}
use snii.Common.Status.{ok, ◌>>=◌, Result}
use snii.Format.Bsbf.Filter.{replicate-IsWord}

-- Two blocks.
abbrev filter : BsbfBuilder
filter = record { words = replicate 16 0; num_bytes = 64; num_blocks = 2; ndv = 3 }

filter-IsStored : IsStored filter
filter-IsStored = record {
  built = record {
    sized = refl;
    some_blocks = omega arith;
    fits = omega arith;
    words32 = replicate-IsWord 16;
  };
  size = record { exponent = 6; is_power = refl; low = omega arith; high = omega arith };
  blocks = refl;
  ndv = omega arith;
}

maybe_contains-insert_example :
    maybe_contains (insert_all (5 ∷ []) (insert filter 0x0123456789ABCDEF)) 0x0123456789ABCDEF
    ≡ true
maybe_contains-insert_example =
    maybe_contains-insert filter 0x0123456789ABCDEF (5 ∷ []) filter-IsStored.built (omega arith)

-- Another hash is denied.
denied : maybe_contains (insert filter 0x0123456789ABCDEF) 0x0123456789ABCDEE ≡ false
unfolding maybe_contains find_scalar find_masks insert insert_scalar insert_masks masks_scalar
    bsbf_block_index
denied = refl

-- A filter in a file, with bytes before and behind it.
abbrev filled : BsbfBuilder
filled = insert filter 0x0123456789ABCDEF

abbrev read_file : List ℕ → ℕ → ℕ → Result (List ℕ)
read_file file offset len = ok (take len (drop offset file))

bsbf_probe-serialize_example :
    (serialize filled (7 ∷ 7 ∷ []) >>= λ written.
    parse (take 28 (drop 2 (written ++ (9 ∷ [])))) 2 >>= λ header.
    bsbf_probe (read_file (written ++ (9 ∷ []))) header 0x0123456789ABCDEF)
    ≡ ok (maybe_contains filled 0x0123456789ABCDEF)
unfolding insert
bsbf_probe-serialize_example =
    bsbf_probe-serialize read_file filled 0x0123456789ABCDEF (7 ∷ 7 ∷ []) (9 ∷ [])
      (insert-IsStored filter 0x0123456789ABCDEF filter-IsStored) (omega arith)
      (λ file. record { within = λ offset len h. refl }) (omega arith)

-- A hash of the second block, where one of the first block is asked for.
second_block-IsElsewhere : All (IsElsewhere 2 5) (0x8000000000000007 ∷ [])
unfolding bsbf_block_index
second_block-IsElsewhere = ((omega arith, omega arith), tt)

maybe_contains-create_sized_example :
    maybe_contains (insert_all (0x8000000000000007 ∷ []) (create_sized 3 64)) 5 ≡ false
maybe_contains-create_sized_example =
    maybe_contains-create_sized 3 64 5 (0x8000000000000007 ∷ []) filter-IsStored.size (omega arith)
      second_block-IsElsewhere

-- 1500 bits take 256 bytes.
round_num_bytes_lem_example : IsSizeFor 1500 (round_num_bytes 1500)
round_num_bytes_lem_example = round_num_bytes_lem 1500 (omega arith)

rounds_up : round_num_bytes 1500 ≡ 256
unfolding round_num_bytes next_power
rounds_up = refl

-- Hundredths, with a formula of about ten bits for a key.
abbrev hundredths : Doubles ℕ
hundredths = record {
  of_nat = λ n. 100 * n;
  negate = λ m. m;
  times = λ m n. m * n / 100;
  minus = λ m n. m - n;
  divide = λ m n. m * 100 / n;
  pow = λ m n. m;
  log = λ m. 77;
  less = ltb;
  truncate = λ m. m / 100;
}

hundredths-Truncates : Truncates hundredths
hundredths-Truncates ndv fpp low high = ground (arith, high)

create-IsStored_example : (b : BsbfBuilder) × (create hundredths 1000 1 ≡ ok b) × IsStored b
create-IsStored_example =
    create-IsStored hundredths 1000 1 hundredths-Truncates (omega arith) refl refl
