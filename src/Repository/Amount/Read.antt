-- ===== src/Repository/Amount/Read.antt =====
-- pkg/repository/txs.go, ExtractNumber: what it reads of a coin that was printed.
use cosmos_indexer.Prelude.{
  ℕ, zero, suc, ◌+◌, ◌-◌, ◌*◌, ◌/◌, ◌%◌, ◌≤◌, ◌<◌, ◌^◌, ◌≡◌, refl, sym, ap, ◌∙◌, Bool, true, false,
  not, ◌&&◌, List, [], ◌∷◌, ◌++◌, none, some, ltb, ◌==◌, ==_refl, length, length-append, arith,
  ltb→lt, Bool-cases, inl, inr, ◌⊎◌, ◌≢◌,
}
use mathlib.Core.List.{append_assoc}
use cosmos_indexer.Prelude.Int.{ℤ, pos}
use cosmos_indexer.Repository.Amount.{
  is_digit, leading_digits, first_number, number_of, digits_from, itoa, strip, remove_all,
  extract_number,
}

abbrev all_digits : List ℕ → Bool
all_digits [] = true
all_digits (c ∷ cs) = is_digit c && all_digits cs

-- A number: at least one digit, and nothing else.
abbrev is_number : List ℕ → Bool
is_number [] = false
is_number (c ∷ cs) = is_digit c && all_digits cs

abbrev pub no_digits : List ℕ → Bool
no_digits [] = true
no_digits (c ∷ cs) = not (is_digit c) && no_digits cs

is_digit_small : (d : ℕ) → d < 10 → is_digit (48 + d) ≡ true
unfolding is_digit
is_digit_small d h = ground arith

add_digit :
    (d : ℕ) (acc : List ℕ) → d < 10 → is_number acc ≡ true → is_number ((48 + d) ∷ acc) ≡ true
add_digit d [] h e = ground arith
add_digit d (c ∷ cs) h e = rw (is_digit_small d h) e

mod_small : (n : ℕ) → n % 10 < 10
mod_small n = omega arith

div_small : (n fuel : ℕ) → 10 ≤ n → n < suc fuel → n / 10 < fuel
div_small n fuel h k = omega arith

rebuilt : (n : ℕ) → n / 10 * 10 + (48 + n % 10 - 48) ≡ n
rebuilt n = omega arith

digits_from-more :
    (fuel n : ℕ) (acc : List ℕ) → is_number acc ≡ true → is_number (digits_from fuel n acc) ≡ true
unfolding digits_from
digits_from-more zero n acc h = h
digits_from-more (suc fuel) n [] h = ground arith
digits_from-more (suc fuel) n (c ∷ cs) h = elim (Bool-cases (ltb n 10)) [
  | inl e ↦ rw e (add_digit n (c ∷ cs) (ltb→lt n 10 e) h)
  | inr e ↦ rw e (
      digits_from-more fuel (n / 10) ((48 + n % 10) ∷ c ∷ cs)
        (add_digit (n % 10) (c ∷ cs) (mod_small n) h))
]

itoa-is_number : (n : ℕ) → is_number (itoa (pos n)) ≡ true
unfolding itoa digits_from
itoa-is_number n = elim (Bool-cases (ltb n 10)) [
  | inl e ↦ rw (e, is_digit_small n (ltb→lt n 10 e)) refl
  | inr e ↦ rw e (
      digits_from-more n (n / 10) ((48 + n % 10) ∷ [])
        (rw (is_digit_small (n % 10) (mod_small n)) refl))
]

number_of-digits_from :
    (fuel n : ℕ) (acc : List ℕ) → n < fuel → number_of 0 (digits_from fuel n acc) ≡ number_of n acc
unfolding number_of digits_from
number_of-digits_from zero n acc h = absurd (omega arith)
number_of-digits_from (suc fuel) n acc h = elim (Bool-cases (ltb n 10)) [
  | inl e ↦ rw e (ap (λ x. number_of x acc) (omega arith))
  | inr e ↦ rw e (
      number_of-digits_from fuel (n / 10) ((48 + n % 10) ∷ acc) (div_small n fuel (ground arith) h)
      ∙ ap (λ x. number_of x acc) (rebuilt n))
]

number_of-itoa : (n : ℕ) → number_of 0 (itoa (pos n)) ≡ n
unfolding itoa number_of
number_of-itoa n = number_of-digits_from (suc n) n [] (omega arith)

leading_digits-append :
    (p rest : List ℕ)
    → all_digits p ≡ true
    → leading_digits rest ≡ []
    → leading_digits (p ++ rest) ≡ p
unfolding leading_digits
leading_digits-append [] rest h e = e
leading_digits-append (c ∷ cs) rest h e = elim (Bool-cases (is_digit c)) [
  | inl d ↦ rw d (ap (λ x. c ∷ x) (leading_digits-append cs rest (rw d at h) e))
  | inr d ↦ ground arith
]

leading_digits-no_digits : (d : List ℕ) → no_digits d ≡ true → leading_digits d ≡ []
unfolding leading_digits
leading_digits-no_digits [] h = refl
leading_digits-no_digits (c ∷ cs) h = elim (Bool-cases (is_digit c)) [
  | inl d ↦ ground arith
  | inr d ↦ rw d refl
]

leading_digits-front :
    (d rest : List ℕ) → d ≢ [] → no_digits d ≡ true → leading_digits (d ++ rest) ≡ []
unfolding leading_digits
leading_digits-front [] rest n h = absurd (n refl)
leading_digits-front (c ∷ cs) rest n h = elim (Bool-cases (is_digit c)) [
  | inl d ↦ ground arith
  | inr d ↦ rw d refl
]

is_number-long : (p : List ℕ) → is_number p ≡ true → 0 < length p
is_number-long [] h = ground arith
is_number-long (c ∷ cs) h = omega arith

first_number-append :
    (p rest : List ℕ)
    → is_number p ≡ true
    → leading_digits rest ≡ []
    → first_number (p ++ rest) ≡ some p
unfolding first_number
first_number-append [] rest h e = ground arith
first_number-append (c ∷ cs) rest h e = elim (Bool-cases (is_digit c)) [
  | inl d ↦ rw d (ap (λ x. some (c ∷ x)) (leading_digits-append cs rest (rw d at h) e))
  | inr d ↦ ground arith
]

strip-append : (p rest : List ℕ) → strip p (p ++ rest) ≡ some rest
unfolding strip
strip-append [] rest = refl
strip-append (c ∷ cs) rest = rw (==_refl c) (strip-append cs rest)

strip-other :
    (p : List ℕ) (c : ℕ) (cs : List ℕ)
    → is_number p ≡ true
    → is_digit c ≡ false
    → strip p (c ∷ cs) ≡ none
unfolding strip
strip-other [] c cs h e = ground arith
strip-other (d ∷ ds) c cs h e = elim (Bool-cases (d == c)) [
  | inl q ↦ both (sym (ap is_digit (same q)) ∙ first_digit (Bool-cases (is_digit d))) e
  | inr q ↦ rw q refl
]
  where
    same : (d == c) ≡ true → d ≡ c
    same q = ground arith

    first_digit : (is_digit d ≡ true) ⊎ (is_digit d ≡ false) → is_digit d ≡ true
    first_digit (inl x) = x
    first_digit (inr x) = ground arith

    both : {A : Type 0} {b : Bool} → b ≡ true → b ≡ false → A
    both x y = cc

-- Texts without digits are left alone.
remove_all-no_digits :
    (fuel : ℕ) (p d : List ℕ) → is_number p ≡ true → no_digits d ≡ true → remove_all fuel p d ≡ d
unfolding remove_all
remove_all-no_digits zero p d h e = refl
remove_all-no_digits (suc fuel) p [] h e = refl
remove_all-no_digits (suc fuel) p (c ∷ cs) h e = elim (Bool-cases (is_digit c)) [
  | inl q ↦ ground arith
  | inr q ↦
      rw (remove_all, strip-other p c cs h q)
        (ap (λ x. c ∷ x) (remove_all-no_digits fuel p cs h (rw q at e)))
]

-- The number is cut out after a text without digits, and the search goes on behind it.
remove_all-cut :
    (fuel : ℕ) (p d rest : List ℕ)
    → is_number p ≡ true
    → no_digits d ≡ true
    → length d < fuel
    → (left : ℕ) × (length d + suc left ≡ fuel)
      × (remove_all fuel p (d ++ p ++ rest) ≡ d ++ remove_all left p rest)
unfolding remove_all
remove_all-cut zero p d rest h e l = absurd (omega arith)
remove_all-cut (suc fuel) [] d rest h e l = ground arith
remove_all-cut (suc fuel) (q ∷ qs) [] rest h e l =
    (fuel, omega arith, rw (remove_all, strip-append (q ∷ qs) rest) refl)
remove_all-cut (suc fuel) (q ∷ qs) (c ∷ d) rest h e l = elim (Bool-cases (is_digit c)) [
  | inl x ↦ ground arith
  | inr x ↦
      let (left, count, cut) = remove_all-cut fuel (q ∷ qs) d rest h (rw x at e) (omega arith) in
      (
        left,
        omega arith,
        rw (remove_all, strip-other (q ∷ qs) c (d ++ (q ∷ qs) ++ rest) h x) (ap (λ y. c ∷ y) cut),
      )
]

module _ (coefficient_int64 : ℕ → ℤ)
    (fits : (n : ℕ) → n < 2 ^ 63 → coefficient_int64 n ≡ pos n) where
  -- What is read where the digits of a number come first: the number, and what is left when these digits
  -- are cut out of the rest.
  extract_number-rest :
      (n : ℕ) (p rest : List ℕ)
      → n < 2 ^ 63
      → itoa (pos n) ≡ p
      → leading_digits rest ≡ []
      → (left : ℕ) × (suc left ≡ length (p ++ rest))
        × (extract_number coefficient_int64 (p ++ rest) ≡ some (pos n, remove_all left p rest))
  unfolding extract_number
  extract_number-rest n p rest small same e =
      let number = ap is_number (sym same) ∙ itoa-is_number n in
      let whole =
        ap (λ x. coefficient_int64 (number_of 0 x)) (sym same)
        ∙ ap coefficient_int64 (number_of-itoa n)
        ∙ fits n small in
      let (left, count, cut) =
        remove_all-cut (length (p ++ rest)) p [] rest number refl
          (omega (arith, length-append p rest, is_number-long p number)) in
      (
        left,
        omega (arith, count),
        ap
              (λ o. elim o [
                | none ↦ none
                | some ds ↦ some (
                  coefficient_int64 (number_of 0 ds),
                  remove_all (length (p ++ rest)) (itoa (coefficient_int64 (number_of 0 ds)))
                      (p ++ rest),
                )
              ])
              (first_number-append p rest number e)
            ∙ ap (λ z. some (z, remove_all (length (p ++ rest)) (itoa z) (p ++ rest))) whole
            ∙ ap (λ q. some (pos n, remove_all (length (p ++ rest)) q (p ++ rest))) same
            ∙ ap (λ x. some (pos n, x)) cut,
      )

  -- For an amount below 2^63 and a denomination without digits: the coin as printed reads back as the amount
  -- and the denomination.
  pub extract_number-printed :
      (n : ℕ) (denom : List ℕ)
      → n < 2 ^ 63
      → no_digits denom ≡ true
      → extract_number coefficient_int64 (itoa (pos n) ++ denom) ≡ some (pos n, denom)
  unfolding extract_number
  extract_number-printed n denom small plain =
      let (left, count, read) =
        extract_number-rest n (itoa (pos n)) denom small refl
          (leading_digits-no_digits denom plain) in
      read
      ∙ ap (λ x. some (pos n, x))
          (remove_all-no_digits left (itoa (pos n)) denom (itoa-is_number n) plain)

  -- For an amount below 2^63 and a denomination of a text without digits, the digits of the amount, and another
  -- text without digits: the denomination that is read lacks those digits.
  pub extract_number-cuts :
      (n : ℕ) (front back : List ℕ)
      → n < 2 ^ 63
      → front ≢ []
      → no_digits front ≡ true
      → no_digits back ≡ true
      → extract_number coefficient_int64 (itoa (pos n) ++ (front ++ itoa (pos n) ++ back))
        ≡ some (pos n, front ++ back)
  unfolding extract_number
  extract_number-cuts n front back small some_text plain1 plain2 =
      let p = itoa (pos n) in
      let (left, count, read) = extract_number-rest n p (front ++ p ++ back) small refl (lead n) in
      let (left', count', cut) =
        remove_all-cut left p front back (itoa-is_number n) plain1 (room n left count) in
      read
      ∙ ap (λ x. some (pos n, x))
          (cut ∙ ap (λ x. front ++ x) (remove_all-no_digits left' p back (itoa-is_number n) plain2))
    where
      lead : (n : ℕ) → leading_digits (front ++ itoa (pos n) ++ back) ≡ []
      lead n =
          ap leading_digits (append_assoc front (itoa (pos n)) back)
          ∙ leading_digits-front front (itoa (pos n) ++ back) some_text plain1

      room :
          (n left : ℕ)
          → suc left ≡ length (itoa (pos n) ++ (front ++ itoa (pos n) ++ back))
          → length front < left
      room n left count = sizes (itoa (pos n)) left (itoa-is_number n) count
        where
          sizes :
              (p : List ℕ) (left : ℕ)
              → is_number p ≡ true
              → suc left ≡ length (p ++ (front ++ p ++ back))
              → length front < left
          sizes p left number count = omega (
            arith,
            is_number-long p number,
            length-append p (front ++ p ++ back),
            length-append (front ++ p) back,
            length-append front p,
          )
