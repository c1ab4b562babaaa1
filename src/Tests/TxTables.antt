-- ===== src/Tests/TxTables.antt =====
-- db/db.go: tables of transactions as lists, the newest row first. A row's id is one more than the number of rows
-- before it.
use cosmos_indexer.Prelude.{
  ℕ, suc, ◌≡◌, ◌≢◌, ◌≤◌, refl, ap, sym, ◌∙◌, true, false, ◌||◌, ◌==◌, String, List, [], ◌∷◌, Option,
  none, some, arith, length, if◌then◌else◌, Bool-cases, Option-cases, inl, inr,
}
use mathlib.Core.Path.{subst}
use cosmos_indexer.Prelude.Text.{str_eq, eq_iff, eq_refl}
use cosmos_indexer.Database.Txs.Tables.{
  Appended, AppendedLaws, NamedTable, NamedLaws, TxesTable, TxesLaws, TxColumns,
}

module _ {V : Type 0} where
  abbrev row_at : ℕ → List V → Option V
  row_at id [] = none
  row_at id (v ∷ s) = if suc (length s) == id then some v else row_at id s

  row_at-bound : (id : ℕ) (w : V) (s : List V) → row_at id s ≡ some w → id ≤ length s
  row_at-bound id w [] h = cc
  row_at-bound id w (v ∷ s) h = elim (Bool-cases (suc (length s) == id)) [
    | inl e ↦ ground (arith, e)
    | inr e ↦ let below : id ≤ length s = row_at-bound id w s (rw e at h) in omega arith
  ]

  row_at-last : (v : V) (s : List V) → row_at (suc (length s)) (v ∷ s) ≡ some v
  row_at-last v s =
      let same : suc (length s) == suc (length s) ≡ true = ground arith in rw same refl

  row_at-kept :
      (v : V) (id : ℕ) (w : V) (s : List V) → row_at id s ≡ some w → row_at id (v ∷ s) ≡ some w
  row_at-kept v id w s h =
      let below = row_at-bound id w s h in
      let other : suc (length s) == id ≡ false = ground arith in rw other h

abbrev pub appending : (V : Type 0) → Appended V
appending V = record { Rows = List V; append = λ v s. (v ∷ s, suc (length s)); at_id = row_at }

pub appending-AppendedLaws : (V : Type 0) → AppendedLaws (appending V)
appending-AppendedLaws V = record { appended = row_at-last; kept = row_at-kept }

-- The oldest row with the name, or the oldest row where the name is empty.
abbrev found : String → List String → Option (ℕ × String)
found name [] = none
found name (v ∷ s) = elim (found name s) [
  | some r ↦ some r
  | none ↦ if str_eq name "" || str_eq v name then some (suc (length s), v) else none
]

abbrev take_or_add : String → List String → List String × (ℕ × String)
take_or_add name s = elim (found name s) [
  | some r ↦ (s, r)
  | none ↦ (name ∷ s, (suc (length s), name))
]

take_or_add-some :
    (name : String) (s : List String) (r : ℕ × String)
    → found name s ≡ some r
    → take_or_add name s ≡ (s, r)
take_or_add-some name s r e = rw (take_or_add, e) refl

take_or_add-none :
    (name : String) (s : List String)
    → found name s ≡ none
    → take_or_add name s ≡ (name ∷ s, (suc (length s), name))
take_or_add-none name s e = rw (take_or_add, e) refl

-- What a search gives is in the table, and has the name that is asked for unless that is empty.
abbrev Sound : String → List String → Option (ℕ × String) → Type 0
Sound name s none = Unit {0}
Sound name s (some r) = (row_at r.0 s ≡ some r.1) × (name ≢ "" → r.1 ≡ name)

Sound-later :
    (name v : String) (s : List String) (r : ℕ × String)
    → Sound name s (some r)
    → Sound name (v ∷ s) (some r)
Sound-later name v s r (there, named) = (row_at-kept v r.0 r.1 s there, named)

head-named : (name v : String) → str_eq name "" || str_eq v name ≡ true → name ≢ "" → v ≡ name
head-named name v m n = elim (Bool-cases (str_eq name "")) [
  | inl e ↦ absurd (n ((eq_iff name "").0 e))
  | inr e ↦ (eq_iff v name).0 (rw e at m)
]

found-Sound : (name : String) (s : List String) → Sound name s (found name s)
found-Sound name [] = tt
found-Sound name (v ∷ s) = elim (Option-cases (found name s)) [
  | inr (r, e) ↦
      let rest : Sound name s (some r) = subst (Sound name s) e (found-Sound name s) in
      rw e (Sound-later name v s r rest)
  | inl e ↦ elim (Bool-cases (str_eq name "" || str_eq v name)) [
    | inl m ↦ rw (e, m) (row_at-last v s, head-named name v m)
    | inr m ↦ rw (e, m) tt
  ]
]

abbrev pub tippers : NamedTable
tippers = record { Rows = List String; take_or_add = take_or_add; at_id = row_at; first = found "" }

take_or_add-law :
    (P : List String × (ℕ × String) → Type 0) (name : String) (s : List String)
    → ((r : ℕ × String) → Sound name s (some r) → P (s, r))
    → P (name ∷ s, (suc (length s), name))
    → P (take_or_add name s)
take_or_add-law P name s old new = elim (Option-cases (found name s)) [
  | inr (r, e) ↦
      subst P (sym (take_or_add-some name s r e))
        (old r (subst (Sound name s) e (found-Sound name s)))
  | inl e ↦ subst P (sym (take_or_add-none name s e)) new
]

pub tippers-NamedLaws : NamedLaws tippers
tippers-NamedLaws = record {
  there = λ name s.
      take_or_add-law (λ x. row_at x.1.0 x.0 ≡ some x.1.1) name s (λ r h. h.0) (row_at-last name s);
  named = λ name s. take_or_add-law (λ x. name ≢ "" → x.1.1 ≡ name) name s (λ r h. h.1) (λ n. refl);
  any = take_or_add-some "";
  kept = λ name id old s h.
      take_or_add-law (λ x. row_at id x.0 ≡ some old) name s (λ r g. h)
        (row_at-kept name id old s h);
}

abbrev row_of : String → List (String × (ℕ × TxColumns)) → Option (ℕ × TxColumns)
row_of hash [] = none
row_of hash ((h, r) ∷ s) = if str_eq h hash then some r else row_of hash s

-- The row on top is the one that counts.
abbrev put :
    String → TxColumns → List (String × (ℕ × TxColumns)) → List (String × (ℕ × TxColumns)) × ℕ
put hash v s = elim (row_of hash s) [
  | some (id, old) ↦ ((hash, (id, record old { code = v.code; block_id = v.block_id })) ∷ s, id)
  | none ↦ ((hash, (suc (length s), v)) ∷ s, suc (length s))
]

row_of-top :
    (hash : String) (r : ℕ × TxColumns) (s : List (String × (ℕ × TxColumns)))
    → row_of hash ((hash, r) ∷ s) ≡ some r
row_of-top hash r s = rw (eq_refl hash) refl

row_of-other :
    (hash other : String) (r : ℕ × TxColumns) (s : List (String × (ℕ × TxColumns)))
    → hash ≢ other
    → row_of other ((hash, r) ∷ s) ≡ row_of other s
row_of-other hash other r s n = elim (Bool-cases (str_eq hash other)) [
  | inl e ↦ absurd (n ((eq_iff hash other).0 e))
  | inr e ↦ rw e refl
]

module _ (hash : String) (v : TxColumns) (s : List (String × (ℕ × TxColumns))) where
  put-created :
      row_of hash s ≡ none → put hash v s ≡ ((hash, (suc (length s), v)) ∷ s, suc (length s))
  put-created e = rw (put, e) refl

  put-updated :
      (id : ℕ) (old : TxColumns)
      → row_of hash s ≡ some (id, old)
      → put hash v s ≡ ((hash, (id, record old { code = v.code; block_id = v.block_id })) ∷ s, id)
  put-updated id old e = rw (put, e) refl

  put-others : (other : String) → hash ≢ other → row_of other (put hash v s).0 ≡ row_of other s
  put-others other n = elim (Option-cases (row_of hash s)) [
    | inr ((id, old), e) ↦
        ap (λ x. row_of other x.0) (put-updated id old e) ∙ row_of-other hash other _ s n
    | inl e ↦ ap (λ x. row_of other x.0) (put-created e) ∙ row_of-other hash other _ s n
  ]

abbrev pub txes : TxesTable
txes = record { Rows = List (String × (ℕ × TxColumns)); put = put; find = row_of }

pub txes-TxesLaws : TxesLaws txes
txes-TxesLaws = record {
  created = λ hash v s e.
      subst (λ x. row_of hash x.0 ≡ some (x.1, v)) (sym (put-created hash v s e))
        (row_of-top hash _ s);
  updated = λ hash v s id old e. (
    ap (λ x. x.1) (put-updated hash v s id old e),
    ap (λ x. row_of hash x.0) (put-updated hash v s id old e) ∙ row_of-top hash _ s,
  );
  others = λ hash other v s n. put-others hash v s other n;
}
