-- ===== src/Repository/EventValue/Repeated.antt =====
-- pkg/repository/txs.go, TransactionsByEventValue: a value that is asked for twice.
use cosmos_indexer.Prelude.{
  suc, ◌≤◌, ◌<◌, ◌≡◌, refl, ap, ◌∙◌, Bool, true, false, not, ◌&&◌, String, List, [], ◌∷◌, map,
  length-map, some, All, length, arith, Bool-cases, inl, inr, if◌then◌else◌,
}
use cosmos_indexer.Prelude.Int.{ℤ}
use cosmos_indexer.Prelude.Text.{str_eq, str_elem, eq_iff}
use cosmos_indexer.Repository.Transactions.{Queries, Library, row}
use cosmos_indexer.Repository.EventValue.{
  ValueArgs, ValueQueries, transactions_by_event_value, prepare_v2,
}

-- No text stands in the list twice.
abbrev pub distinct : List String → Bool
distinct [] = true
distinct (s ∷ ss) = not (str_elem s ss) && distinct ss

-- The texts of the second list are all in the first.
abbrev pub within : List String → List String → Bool
within texts [] = true
within texts (s ∷ ss) = str_elem s texts && within texts ss

-- HAVING COUNT(DISTINCT value) = count: a transaction that comes back has that many different values among those
-- asked for.
pub record Matched (args : ValueArgs) (hash : String) : Type 0 where
  pub values : List String
  pub different : distinct values ≡ true
  pub asked_for : within args.digests values ≡ true
  pub as_many : length values ≡ args.count

abbrev pub Documented : ValueQueries → Type 0
Documented e =
    (args : ValueArgs)
    → (hashes : List String) × (e.hash_rows args ≡ row (map some hashes))
      × All (Matched args) hashes

-- The list without the first place of a text.
abbrev without : String → List String → List String
without s [] = []
without s (t ∷ ts) = if str_eq t s then ts else t ∷ without s ts

length-without :
    (s : String) (ts : List String) → str_elem s ts ≡ true → suc (length (without s ts)) ≡ length ts
length-without s [] h = cc
length-without s (t ∷ ts) h = elim (Bool-cases (str_eq t s)) [
  | inl e ↦ rw e refl
  | inr e ↦ rw e (ap suc (length-without s ts (ground (arith, h, e))))
]

str_elem-without :
    (s u : String) (ts : List String)
    → str_eq s u ≡ false
    → str_elem u ts ≡ true
    → str_elem u (without s ts) ≡ true
str_elem-without s u [] n h = h
str_elem-without s u (t ∷ ts) n h =
    ground (arith, h, n, eq_iff t s, eq_iff t u, eq_iff s u, str_elem-without s u ts n)

within-without :
    (s : String) (ts ss : List String)
    → str_elem s ss ≡ false
    → within ts ss ≡ true
    → within (without s ts) ss ≡ true
within-without s ts [] n h = refl
within-without s ts (u ∷ ss) n h =
    ground (arith, n, h, str_elem-without s u ts, within-without s ts ss, eq_iff u s, eq_iff s u)

-- Different texts that are all in a list are at most as many as the list has places.
distinct-length :
    (ts ss : List String) → distinct ss ≡ true → within ts ss ≡ true → length ss ≤ length ts
distinct-length ts [] d w = omega arith
distinct-length ts (s ∷ ss) d w =
    ground
      (arith, d, w, length-without s ts, distinct-length (without s ts) ss, within-without s ts ss)

-- The list with each text once.
abbrev dedup : List String → List String
dedup [] = []
dedup (t ∷ ts) = let rest = dedup ts in if str_elem t ts then rest else t ∷ rest

str_elem-dedup : (u : String) (ts : List String) → str_elem u (dedup ts) ≡ str_elem u ts
str_elem-dedup u [] = refl
str_elem-dedup u (t ∷ ts) = ground (arith, eq_iff t u, str_elem-dedup u ts)

length-dedup : (ts : List String) → length (dedup ts) ≤ length ts
length-dedup [] = omega arith
length-dedup (t ∷ ts) = ground (arith, length-dedup ts)

length-dedup_repeated : (ts : List String) → distinct ts ≡ false → length (dedup ts) < length ts
length-dedup_repeated [] h = cc
length-dedup_repeated (t ∷ ts) h = ground (arith, length-dedup ts, length-dedup_repeated ts, h)

within-dedup : (ts ss : List String) → within (dedup ts) ss ≡ within ts ss
within-dedup ts [] = refl
within-dedup ts (s ∷ ss) = ground (arith, str_elem-dedup s ts, within-dedup ts ss)

-- And they are fewer where the list has a text twice.
distinct-length_repeated :
    (ts ss : List String)
    → distinct ts ≡ false
    → distinct ss ≡ true
    → within ts ss ≡ true
    → length ss < length ts
distinct-length_repeated ts ss r d w =
    omega
      (arith, length-dedup_repeated ts r, distinct-length (dedup ts) ss d (within-dedup ts ss ∙ w))

module _ (lib : Library) (q : Queries) (e : ValueQueries) where
  no_match :
      (values message_type : List String) (limit offset : ℤ) (hashes : List String)
      → distinct (map e.digest values) ≡ false
      → All (Matched (prepare_v2 lib q e values message_type limit offset)) hashes
      → hashes ≡ []
  unfolding prepare_v2
  no_match values message_type limit offset [] twice h = refl
  no_match values message_type limit offset (hash ∷ hashes) twice (m, rest) = absurd (
      omega (
        arith,
        distinct-length_repeated (map e.digest values) m.values twice m.different m.asked_for,
        m.as_many,
        length-map e.digest values,
      ))

  -- From a database that answers as documented: where two of the values have one digest, as the same value twice has
  -- and one in upper and in lower case, no transaction is found, with a total of 0 and without an error, whatever
  -- the database holds.
  pub transactions_by_event_value-repeated :
      Documented e
      → (values message_type : List String) (include_events : Bool) (limit offset : ℤ)
      → distinct (map e.digest values) ≡ false
      → transactions_by_event_value lib q e values message_type include_events limit offset
        ≡ some ([], 0)
  unfolding transactions_by_event_value
  transactions_by_event_value-repeated promise values message_type include_events limit offset
        twice =
      let (hashes, answered, matched) =
        promise (prepare_v2 lib q e values message_type limit offset) in
      rw
        (
          transactions_by_event_value,
          answered,
          no_match values message_type limit offset hashes twice matched,
        )
        refl
