-- ===== src/Prelude/Sorting.antt =====
-- `sort.Slice` with `<` on an integer key, for lists whose keys differ: insertion sort.
use Prim.Native.Nat.{ℕ, suc, ◌≤◌, ◌<◌}
use mathlib.Core.Path.{◌≡◌, refl, ap, ◌∙◌}
use mathlib.Core.Bool.{Bool, true, false, ◌||◌}
use mathlib.Core.List.{List, [], ◌∷◌, ◌++◌, map}
use mathlib.Core.List.{Perm}
use mathlib.Core.List.Perm
use mathlib.Core.Logic.{inl, inr}
use native.Mathlib.Nat.{le_trans}
use native.Mathlib.Omega.{arith}
use cosmos_indexer.Prelude.Tests.{leb, ◌==◌, if◌then◌else◌, Bool-cases, leb→le, leb→gt}
use cosmos_indexer.Prelude.Lists.{All, All-append, All-map, select, elem, length}

module _ {ℓ} {A : Type ℓ} where
  unfoldable pub insert_by : (A → ℕ) → A → List A → List A
  insert_by key a [] = a ∷ []
  insert_by key a (x ∷ xs) = if leb (key a) (key x) then a ∷ x ∷ xs else x ∷ insert_by key a xs

  unfoldable pub sort_by : (A → ℕ) → List A → List A
  unfolding insert_by
  sort_by key [] = []
  sort_by key (x ∷ xs) = insert_by key x (sort_by key xs)

  -- Non-decreasing, and strictly increasing, keys.
  abbrev pub Ascending : (A → ℕ) → List A → Type 0
  Ascending key [] = Unit
  Ascending key (x ∷ xs) = All (λ y. key x ≤ key y) xs × Ascending key xs

  abbrev pub Increasing : (A → ℕ) → List A → Type 0
  Increasing key [] = Unit
  Increasing key (x ∷ xs) = All (λ y. key x < key y) xs × Increasing key xs

  -- Two increasing lists with a number between their keys.
  pub Increasing-append :
      (key : A → ℕ) (k : ℕ) (xs ys : List A)
      → Increasing key xs
      → Increasing key ys
      → All (λ x. key x < k) xs
      → All (λ y. k ≤ key y) ys
      → Increasing key (xs ++ ys)
  Increasing-append key k [] ys hx hy below above = hy
  Increasing-append key k (x ∷ xs) ys hx hy below above = (
    All-append _ xs ys hx.0 (All-map _ _ ys (λ y q. le_trans below.0 q) above),
    Increasing-append key k xs ys hx.1 hy below.1 above,
  )

  All-select {κ} : (P : A → Type κ) (p : A → Bool) (xs : List A) → All P xs → All P (select p xs)
  All-select P p [] h = tt
  All-select P p (x ∷ xs) h = elim (Bool-cases (p x)) [
    | inl e ↦ rw e (h.0, All-select P p xs h.1)
    | inr e ↦ rw e (All-select P p xs h.1)
  ]

  pub Increasing-select :
      (key : A → ℕ) (p : A → Bool) (xs : List A) → Increasing key xs → Increasing key (select p xs)
  Increasing-select key p [] h = tt
  Increasing-select key p (x ∷ xs) h = elim (Bool-cases (p x)) [
    | inl e ↦ rw e (All-select _ p xs h.0, Increasing-select key p xs h.1)
    | inr e ↦ rw e (Increasing-select key p xs h.1)
  ]

  All-insert_by {κ} :
      (P : A → Type κ) (key : A → ℕ) (a : A) (xs : List A)
      → P a
      → All P xs
      → All P (insert_by key a xs)
  unfolding insert_by
  All-insert_by P key a [] p h = (p, tt)
  All-insert_by P key a (x ∷ xs) p h = elim (Bool-cases (leb (key a) (key x))) [
    | inl e ↦ rw e (p, (h.0, h.1))
    | inr e ↦ rw e (h.0, All-insert_by P key a xs p h.1)
  ]

  insert_by-Ascending :
      (key : A → ℕ) (a : A) (xs : List A) → Ascending key xs → Ascending key (insert_by key a xs)
  unfolding insert_by
  insert_by-Ascending key a [] h = (tt, tt)
  insert_by-Ascending key a (x ∷ xs) h = elim (Bool-cases (leb (key a) (key x))) [
    | inl e ↦
        rw e ((leb→le _ _ e, All-map _ _ xs (λ y p. le_trans (leb→le _ _ e) p) h.0), (h.0, h.1))
    | inr e ↦ rw e (
      All-insert_by (λ y. key x ≤ key y) key a xs (omega (arith, leb→gt (key a) (key x) e)) h.0,
      insert_by-Ascending key a xs h.1,
    )
  ]

  pub sort_by-Ascending : (key : A → ℕ) (xs : List A) → Ascending key (sort_by key xs)
  unfolding sort_by
  sort_by-Ascending key [] = tt
  sort_by-Ascending key (x ∷ xs) = insert_by-Ascending key x _ (sort_by-Ascending key xs)

  insert_by-perm : (key : A → ℕ) (a : A) (xs : List A) → Perm (insert_by key a xs) (a ∷ xs)
  unfolding insert_by
  insert_by-perm key a [] = Perm.refl _
  insert_by-perm key a (x ∷ xs) = elim (Bool-cases (leb (key a) (key x))) [
    | inl e ↦ rw e (Perm.refl _)
    | inr e ↦ rw e (Perm.trans (Perm.cons x (insert_by-perm key a xs)) (Perm.swap a x xs))
  ]

  -- Sorting only reorders.
  pub sort_by-perm : (key : A → ℕ) (xs : List A) → Perm (sort_by key xs) xs
  unfolding sort_by
  sort_by-perm key [] = Perm.refl _
  sort_by-perm key (x ∷ xs) =
      Perm.trans (insert_by-perm key x _) (Perm.cons x (sort_by-perm key xs))

  pub length-sort_by : (key : A → ℕ) (xs : List A) → length (sort_by key xs) ≡ length xs
  unfolding sort_by
  length-sort_by key [] = refl
  length-sort_by key (x ∷ xs) =
      omega (arith, length-insert_by key x (sort_by key xs), length-sort_by key xs)
    where
      length-insert_by :
          (key : A → ℕ) (a : A) (xs : List A) → length (insert_by key a xs) ≡ suc (length xs)
      length-insert_by key a [] = refl
      length-insert_by key a (x ∷ xs) = ground (arith, length-insert_by key a xs)

  -- The keys of a list whose keys differ are strictly increasing once sorted.
  elem-insert_by :
      (key : A → ℕ) (k : ℕ) (a : A) (xs : List A)
      → elem k (map key (insert_by key a xs)) ≡ (k == key a || elem k (map key xs))
  unfolding insert_by
  elem-insert_by key k a [] = refl
  elem-insert_by key k a (x ∷ xs) = ground (arith, elem-insert_by key k a xs)

  pub elem-sort_by :
      (key : A → ℕ) (k : ℕ) (xs : List A) → elem k (map key (sort_by key xs)) ≡ elem k (map key xs)
  unfolding sort_by
  elem-sort_by key k [] = refl
  elem-sort_by key k (x ∷ xs) =
      elem-insert_by key k x (sort_by key xs) ∙ ap (◌||◌ (k == key x)) (elem-sort_by key k xs)

  abbrev pub Distinct : (A → ℕ) → List A → Type 0
  Distinct key [] = Unit
  Distinct key (x ∷ xs) = (elem (key x) (map key xs) ≡ false) × Distinct key xs

  insert_by-Increasing :
      (key : A → ℕ) (a : A) (xs : List A)
      → elem (key a) (map key xs) ≡ false
      → Increasing key xs
      → Increasing key (insert_by key a xs)
  unfolding insert_by
  insert_by-Increasing key a [] n h = (tt, tt)
  insert_by-Increasing key a (x ∷ xs) n h = elim (Bool-cases (leb (key a) (key x))) [
    | inl e ↦
        rw e ((ground arith, All-map _ _ xs (λ y p. le_trans (leb→le_suc e) p) h.0), (h.0, h.1))
    | inr e ↦ rw e (
      All-insert_by (λ y. key x < key y) key a xs (leb→gt (key a) (key x) e) h.0,
      insert_by-Increasing key a xs (ground arith) h.1,
    )
  ]
    where
      leb→le_suc : leb (key a) (key x) ≡ true → suc (key a) ≤ suc (key x)
      leb→le_suc e = ground arith

  pub sort_by-Increasing :
      (key : A → ℕ) (xs : List A) → Distinct key xs → Increasing key (sort_by key xs)
  unfolding sort_by
  sort_by-Increasing key [] h = tt
  sort_by-Increasing key (x ∷ xs) h =
      insert_by-Increasing key x _ (elem-sort_by key (key x) xs ∙ h.0)
        (sort_by-Increasing key xs h.1)
