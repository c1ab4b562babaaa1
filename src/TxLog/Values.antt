-- ===== src/TxLog/Values.antt =====
-- cosmos/modules/tx/logic.go: looking up the value of an attribute by its key.
use cosmos_indexer.Prelude.{
  ℕ, zero, suc, ◌-◌, ◌≤◌, ◌<◌, ◌≡◌, refl, ap, ◌∙◌, sym, String, List, [], ◌∷◌, ◌++◌, Option, none,
  some, Result, ok, err, ◌==◌, if◌then◌else◌, arith, inl, inr, Bool-cases, length, get_elem?,
  get_elem?-lt, length-append, take,
}
use mathlib.Core.List.{append-nil}
use native.Mathlib.Nat.{le_refl}
use cosmos_indexer.Prelude.Text.{str_eq}
use cosmos_indexer.TxLog.{Attribute}

pub data ValueError : Type 0 where
  missing : String → ValueError

find_value : String → List Attribute → Result ValueError String
find_value key [] = err (missing key)
find_value key (a ∷ as_) = if str_eq a.key key then ok a.value else find_value key as_

-- `none` stands for a nil event, or one whose attributes are nil.
unfoldable pub get_value_for_attribute : String → Option (List Attribute) → Result ValueError String
unfolding find_value
get_value_for_attribute key none = ok ""
get_value_for_attribute key (some as_) = find_value key as_

-- The loop of GetNthValueForAttribute, with its `count`.
nth_from : String → ℕ → ℕ → List Attribute → String
nth_from key n count [] = ""
nth_from key n count (a ∷ as_) =
    if str_eq a.key key
    then (if suc count == n then a.value else nth_from key n (suc count) as_)
    else nth_from key n count as_

unfoldable pub get_nth_value_for_attribute : String → ℕ → Option (List Attribute) → String
unfolding nth_from
get_nth_value_for_attribute key n none = ""
get_nth_value_for_attribute key n (some as_) = nth_from key n 0 as_

-- The loop of GetLastValueForAttribute: the index counts down from the length.
last_below : String → List Attribute → ℕ → String
last_below key as_ zero = ""
last_below key as_ (suc i) = elim (get_elem? as_ i) [
  | none ↦ ""
  | some a ↦ if str_eq a.key key then a.value else last_below key as_ i
]

unfoldable pub get_last_value_for_attribute : String → Option (List Attribute) → String
unfolding last_below
get_last_value_for_attribute key none = ""
get_last_value_for_attribute key (some as_) = last_below key as_ (length as_)

-- The values of a key, in order.
abbrev pub values_of : String → List Attribute → List String
values_of key [] = []
values_of key (a ∷ as_) =
    if str_eq a.key key then a.value ∷ values_of key as_ else values_of key as_

abbrev pub or_empty : Option String → String
or_empty none = ""
or_empty (some s) = s

nth_from-eq :
    (key : String) (n count : ℕ) (as_ : List Attribute)
    → count < n
    → nth_from key n count as_ ≡ or_empty (get_elem? (values_of key as_) (n - suc count))
unfolding nth_from
nth_from-eq key n count [] lt = refl
nth_from-eq key n count (a ∷ as_) lt = elim (Bool-cases (suc count == n)) [
  | inl last ↦
      let stop : n - suc count ≡ 0 = ground arith in
      ground (arith, stop, last, nth_from-eq key n count as_ lt)
  | inr more ↦
      let go : n - suc count ≡ suc (n - suc (suc count)) = ground arith in
      ground (
        arith,
        go,
        more,
        nth_from-eq key n (suc count) as_ (ground arith),
        nth_from-eq key n count as_ lt,
      )
]

-- The n-th value, counted from 1, is the n-th of the key's values, and empty beyond their number.
pub get_nth_value-eq :
    (key : String) (n : ℕ) (as_ : List Attribute)
    → get_nth_value_for_attribute key (suc n) (some as_)
      ≡ or_empty (get_elem? (values_of key as_) n)
unfolding get_nth_value_for_attribute
get_nth_value-eq key n as_ =
    nth_from-eq key (suc n) 0 as_ (omega arith)
    ∙ ap (λ i. or_empty (get_elem? (values_of key as_) i)) (omega arith)

-- GetValueForAttribute returns the first value, and fails exactly when there is none.
pub get_value-eq-first :
    (key : String) (as_ : List Attribute)
    → get_value_for_attribute key (some as_)
      ≡ elim (get_elem? (values_of key as_) 0) [ none ↦ err (missing key) | some v ↦ ok v ]
unfolding get_value_for_attribute
get_value-eq-first key [] = refl
get_value-eq-first key (a ∷ as_) = ground (arith, get_value-eq-first key as_)

values_of-append :
    (key : String) (xs ys : List Attribute)
    → values_of key (xs ++ ys) ≡ values_of key xs ++ values_of key ys
values_of-append key [] ys = refl
values_of-append key (x ∷ xs) ys = ground (arith, values_of-append key xs ys)

take-suc {ℓ} :
    {A : Type ℓ} (xs : List A) (i : ℕ) (a : A)
    → get_elem? xs i ≡ some a
    → take (suc i) xs ≡ take i xs ++ a ∷ []
take-suc [] i a h = cc
take-suc (x ∷ xs) zero a h = ground arith
take-suc (x ∷ xs) (suc i) a h = ap (◌∷◌ x) (take-suc xs i a h)

-- The last of a list of texts, or the empty text.
abbrev pub last_or_empty : List String → String
last_or_empty vs = or_empty (get_elem? vs (length vs - 1))

get_elem?-append_last {ℓ} :
    {A : Type ℓ} (xs : List A) (a : A) → get_elem? (xs ++ a ∷ []) (length xs) ≡ some a
get_elem?-append_last [] a = refl
get_elem?-append_last (x ∷ xs) a = get_elem?-append_last xs a

last_or_empty-append : (vs : List String) (v : String) → last_or_empty (vs ++ v ∷ []) ≡ v
last_or_empty-append vs v =
    let here : length (vs ++ v ∷ []) - 1 ≡ length vs = omega (arith, length-append vs (v ∷ [])) in
    rw (here, get_elem?-append_last vs v)

last_below-eq :
    (key : String) (as_ : List Attribute) (i : ℕ)
    → i ≤ length as_
    → last_below key as_ i ≡ last_or_empty (values_of key (take i as_))
unfolding last_below
last_below-eq key as_ zero le = refl
last_below-eq key as_ (suc i) le =
    let (a, here) = get_elem?-lt as_ i le in
    rw (here, last_below, take-suc as_ i a here, values_of-append key (take i as_) (a ∷ []))
      (elim (Bool-cases (str_eq a.key key)) [
        | inl e ↦ rw e (sym (last_or_empty-append (values_of key (take i as_)) a.value))
        | inr e ↦
            rw (e, append-nil (values_of key (take i as_))) (last_below-eq key as_ i (omega arith))
      ])

take-length {ℓ} : {A : Type ℓ} (xs : List A) → take (length xs) xs ≡ xs
take-length [] = refl
take-length (x ∷ xs) = ap (◌∷◌ x) (take-length xs)

-- GetLastValueForAttribute returns the last of the key's values, and the empty text if there is none.
pub get_last_value-eq-last :
    (key : String) (as_ : List Attribute)
    → get_last_value_for_attribute key (some as_) ≡ last_or_empty (values_of key as_)
unfolding get_last_value_for_attribute
get_last_value-eq-last key as_ =
    last_below-eq key as_ (length as_) (le_refl _)
    ∙ ap (λ xs. last_or_empty (values_of key xs)) (take-length as_)
