-- ===== src/Repository/Amount.antt =====
-- pkg/repository/txs.go, ExtractNumber: the amount and the denomination of a coin such as 5uatom. A text is
-- the list of its bytes.
pub mod Read
use cosmos_indexer.Prelude.{
  ℕ, zero, suc, ◌+◌, ◌-◌, ◌*◌, ◌/◌, ◌%◌, Bool, ◌&&◌, List, [], ◌∷◌, Option, none, some,
  if◌then◌else◌, leb, ltb, ◌==◌, length,
}
use cosmos_indexer.Prelude.Int.{ℤ, pos, negsuc}

unfoldable pub is_digit : ℕ → Bool
is_digit c = leb 48 c && leb c 57

unfoldable pub leading_digits : List ℕ → List ℕ
unfolding is_digit
leading_digits [] = []
leading_digits (c ∷ cs) = let rest = leading_digits cs in if is_digit c then c ∷ rest else []

-- The first match of the expression (\d+).
unfoldable pub first_number : List ℕ → Option (List ℕ)
unfolding leading_digits
first_number [] = none
first_number (c ∷ cs) =
    let rest = first_number cs in if is_digit c then some (c ∷ leading_digits cs) else rest

-- The number that digits stand for, after those read so far.
unfoldable pub number_of : ℕ → List ℕ → ℕ
number_of acc [] = acc
number_of acc (c ∷ cs) = number_of (acc * 10 + (c - 48)) cs

unfoldable pub digits_from : ℕ → ℕ → List ℕ → List ℕ
digits_from zero n acc = acc
digits_from (suc fuel) n acc =
    let rest = digits_from fuel (n / 10) ((48 + n % 10) ∷ acc) in
    if ltb n 10 then (48 + n) ∷ acc else rest

-- `strconv.Itoa`
unfoldable pub itoa : ℤ → List ℕ
unfolding digits_from
itoa (pos n) = digits_from (suc n) n []
itoa (negsuc n) = 45 ∷ digits_from (suc (suc n)) (suc n) []

unfoldable pub strip : List ℕ → List ℕ → Option (List ℕ)
strip [] cs = some cs
strip (p ∷ ps) [] = none
strip (p ∷ ps) (c ∷ cs) = let rest = strip ps cs in if p == c then rest else none

-- `strings.ReplaceAll(text, pattern, "")`, on fuel, of which the length of the text is enough.
unfoldable pub remove_all : ℕ → List ℕ → List ℕ → List ℕ
unfolding strip
remove_all zero pattern_ text = text
remove_all (suc fuel) pattern_ [] = []
remove_all (suc fuel) pattern_ (c ∷ cs) = elim (strip pattern_ (c ∷ cs)) [
  | some rest ↦ remove_all fuel pattern_ rest
  | none ↦ c ∷ remove_all fuel pattern_ cs
]

-- `coefficient_int64` is the 64-bit number that package decimal makes of a number. Digits are always a
-- number, so that the conversion of a match has no error.
unfoldable pub extract_number : (ℕ → ℤ) → List ℕ → Option (ℤ × List ℕ)
unfolding first_number number_of itoa remove_all
extract_number coefficient_int64 value = elim (first_number value) [
  | none ↦ none
  | some digits ↦
      let n = coefficient_int64 (number_of 0 digits) in
      some (n, remove_all (length value) (itoa n) value)
]
