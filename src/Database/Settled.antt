-- ===== src/Database/Settled.antt =====
-- Actions on the database that do nothing when they run again: the notion behind ON CONFLICT DO NOTHING.
use cosmos_indexer.Prelude.{
  ℕ, ◌≡◌, ◌≢◌, ◌⊎◌, refl, sym, ap, ◌∙◌, inl, inr, List, [], ◌∷◌, none, some, Option-cases, All,
}
use mathlib.Core.Path.{subst}
use cosmos_indexer.Database.Table.{Table, Documented, insert_or_find}

-- What may be said of two states: that the second holds every row of the first, and that they hold the
-- same rows.
pub record Growth (S : Type 0) : Type 1 where
  pub Extends : S → S → Type 0
  pub Same : S → S → Type 0
  pub extends_refl : (s : S) → Extends s s
  pub extends_trans : (s t u : S) → Extends s t → Extends t u → Extends s u
  pub same_refl : (s : S) → Same s s
  pub same_trans : (s t u : S) → Same s t → Same t u → Same s u
  pub extends_same : (s t u : S) → Extends s t → Same t u → Extends s u

-- A computation that reads and changes the state.
abbrev pub Action : Type 0 → Type 0 → Type 0
Action S A = S → S × A

infixl 5 ◌>>=◌
abbrev pub ◌>>=◌ : {S A B : Type 0} → Action S A → (A → Action S B) → Action S B
◌>>=◌ m f s = let (t, a) = m s in f a t

abbrev pub return : {S A : Type 0} → A → Action S A
return a s = (s, a)

-- The action at every element, in order, with the results.
unfoldable pub each : {S A B : Type 0} → (A → Action S B) → List A → Action S (List B)
each f [] = return []
each f (a ∷ as_) = f a >>= λ b. each f as_ >>= λ bs. return (b ∷ bs)

module _ {S : Type 0} (g : Growth S) where
  -- The action keeps every row, and in any state that holds the rows it left it changes nothing and
  -- gives the same result.
  abbrev pub Settled : {A : Type 0} → Action S A → Type 0
  Settled m =
      (s : S)
      → g.Extends s (m s).0
        × ((t : S) → g.Extends (m s).0 t → g.Same t (m t).0 × ((m t).1 ≡ (m s).1))

  pub return-Settled : {A : Type 0} (a : A) → Settled (return a)
  return-Settled a s = (g.extends_refl s, λ t h. (g.same_refl t, refl))

  pub >>=-Settled :
      {A B : Type 0} (m : Action S A) (f : A → Action S B)
      → Settled m
      → ((a : A) → Settled (f a))
      → Settled (m >>= f)
  >>=-Settled m f p q s =
      let t1 = (m s).0 in
      let after = q (m s).1 t1 in
      (
        g.extends_trans s t1 _ (p s).0 after.0,
        λ t h.
            let first = (p s).1 t (g.extends_trans t1 _ t after.0 h) in
            let second = after.1 (m t).0 (g.extends_same _ t (m t).0 h first.0) in
            subst (λ a. g.Same t (f a (m t).0).0 × ((f a (m t).0).1 ≡ (f (m s).1 t1).1))
              (sym first.1) (g.same_trans t (m t).0 _ first.0 second.0, second.1),
      )

  pub each-Settled :
      {A B : Type 0} (f : A → Action S B) (xs : List A)
      → ((a : A) → Settled (f a))
      → Settled (each f xs)
  unfolding each
  each-Settled f [] h = return-Settled []
  each-Settled f (a ∷ as_) h =
      >>=-Settled (f a) _ (h a)
        (λ b. >>=-Settled (each f as_) _ (each-Settled f as_ h) (λ bs. return-Settled (b ∷ bs)))

  -- What holds of an element after its action, and stays when rows are added, holds of all elements in the end.
  pub each-All :
      {A B : Type 0} (f : A → Action S B) (Holds : A → S → Type 0)
      → ((a : A) → Settled (f a))
      → ((a : A) (s : S) → Holds a (f a s).0)
      → ((a : A) (s t : S) → g.Extends s t → Holds a s → Holds a t)
      → (xs : List A) (s : S) → All (λ a. Holds a (each f xs s).0) xs
  unfolding each
  each-All f Holds settled after stays [] s = tt
  each-All f Holds settled after stays (a ∷ as_) s =
      let next = (f a s).0 in
      (
        stays a next (each f as_ next).0 (each-Settled f as_ settled next).0 (after a s),
        each-All f Holds settled after stays as_ next,
      )

-- The rows of one table.
abbrev pub rows_growth : {K V : Type 0} (t : Table K V) → Growth t.Rows
rows_growth {K} {V} t = record {
  Extends = λ s u. (k : K) (r : ℕ × V) → t.find k s ≡ some r → t.find k u ≡ some r;
  Same = λ s u. (k : K) → t.find k u ≡ t.find k s;
  extends_refl = λ s k r h. h;
  extends_trans = λ s u v p q k r h. q k r (p k r h);
  same_refl = λ s k. refl;
  same_trans = λ s u v p q k. q k ∙ p k;
  extends_same = λ s u v p q k r h. q k ∙ p k r h;
}

module _ {K V : Type 0} (t : Table K V) (promise : Documented t)
    (decide : (k l : K) → (k ≡ l) ⊎ (k ≢ l)) where
  -- In a table that has the key, nothing changes and the row's id comes back.
  insert_or_find_old :
      (before : ℕ) (k : K) (v : V) (s : t.Rows) (r : ℕ × V)
      → t.find k s ≡ some r
      → ((insert_or_find t before k v s).1 ≡ r.0)
        × ((l : K) → t.find l (insert_or_find t before k v s).0 ≡ t.find l s)
  unfolding insert_or_find
  insert_or_find_old before k v s r e =
      let (nothing, there) = promise.conflict k v s r e in
      (
        rw (insert_or_find, nothing, there) refl,
        λ l.
            rw (insert_or_find, nothing, there)
              (elim (decide k l) [
                | inl q ↦ subst (λ x. t.find x (t.insert k v s).0 ≡ t.find x s) q (there ∙ sym e)
                | inr q ↦ promise.others k l v s q
              ]),
      )

  -- In a table that lacks the key, it gets a row, whose id comes back, and no other row changes.
  insert_or_find_new :
      (before : ℕ) (k : K) (v : V) (s : t.Rows)
      → t.find k s ≡ none
      → (t.find k (insert_or_find t before k v s).0 ≡ some ((insert_or_find t before k v s).1, v))
        × ((l : K) → k ≢ l → t.find l (insert_or_find t before k v s).0 ≡ t.find l s)
  unfolding insert_or_find
  insert_or_find_new before k v s e =
      let (id, back, there) = promise.inserted k v s e in
      (rw (insert_or_find, back) there, λ l q. rw (insert_or_find, back) (promise.others k l v s q))

  -- The row is there afterwards, with the id that comes back.
  pub insert_or_find-finds :
      (before : ℕ) (k : K) (v : V) (s : t.Rows)
      → (w : V) × (t.find k (insert_or_find t before k v s).0
          ≡ some ((insert_or_find t before k v s).1, w))
  insert_or_find-finds before k v s = elim (Option-cases (t.find k s)) [
    | inl e ↦ (v, (insert_or_find_new before k v s e).0)
    | inr (r, e) ↦
        let old = insert_or_find_old before k v s r e in
        (r.1, old.1 k ∙ e ∙ ap (λ i. some (i, r.1)) (sym old.0))
  ]

  pub insert_or_find-Settled :
      (before : ℕ) (k : K) (v : V) → Settled (rows_growth t) (insert_or_find t before k v)
  insert_or_find-Settled before k v s = (
    λ l r h. elim (Option-cases (t.find k s)) [
      | inl e ↦ elim (decide k l) [
        | inl q ↦ absurd_none (sym e ∙ ap (λ x. t.find x s) q ∙ h)
        | inr q ↦ (insert_or_find_new before k v s e).1 l q ∙ h
      ]
      | inr (r', e) ↦ (insert_or_find_old before k v s r' e).1 l ∙ h
    ],
    λ u h.
        let (w, there) = insert_or_find-finds before k v s in
        let old = insert_or_find_old before k v u _ (h k _ there) in (old.1, old.0),
  )
    where
      absurd_none : {A B : Type 0} {x : A} → none ≡ some x → B
      absurd_none h = cc

-- What two of them say together, and what one says of a part of the state.
abbrev pub both : {S : Type 0} → Growth S → Growth S → Growth S
both g h = record {
  Extends = λ s t. g.Extends s t × h.Extends s t;
  Same = λ s t. g.Same s t × h.Same s t;
  extends_refl = λ s. (g.extends_refl s, h.extends_refl s);
  extends_trans = λ s t u p q. (g.extends_trans s t u p.0 q.0, h.extends_trans s t u p.1 q.1);
  same_refl = λ s. (g.same_refl s, h.same_refl s);
  same_trans = λ s t u p q. (g.same_trans s t u p.0 q.0, h.same_trans s t u p.1 q.1);
  extends_same = λ s t u p q. (g.extends_same s t u p.0 q.0, h.extends_same s t u p.1 q.1);
}

abbrev pub along : {S A : Type 0} → (S → A) → Growth A → Growth S
along p g = record {
  Extends = λ s t. g.Extends (p s) (p t);
  Same = λ s t. g.Same (p s) (p t);
  extends_refl = λ s. g.extends_refl (p s);
  extends_trans = λ s t u. g.extends_trans (p s) (p t) (p u);
  same_refl = λ s. g.same_refl (p s);
  same_trans = λ s t u. g.same_trans (p s) (p t) (p u);
  extends_same = λ s t u. g.extends_same (p s) (p t) (p u);
}

-- An action that keeps the rows, all of them and no others.
abbrev pub Untouched : {S A : Type 0} → Growth S → Action S A → Type 0
Untouched {S} g m = (s : S) → g.Extends s (m s).0 × g.Same s (m s).0

pub left-Settled :
    {S A : Type 0} (g h : Growth S) (m : Action S A)
    → Settled g m
    → Untouched h m
    → Settled (both g h) m
left-Settled g h m p q s =
    (((p s).0, (q s).0), λ t e. let after = (p s).1 t e.0 in ((after.0, (q t).1), after.1))

pub right-Settled :
    {S A : Type 0} (g h : Growth S) (m : Action S A)
    → Untouched g m
    → Settled h m
    → Settled (both g h) m
right-Settled g h m p q s =
    (((p s).0, (q s).0), λ t e. let after = (q s).1 t e.1 in (((p t).1, after.0), after.1))

pub both-Untouched :
    {S A : Type 0} (g h : Growth S) (m : Action S A)
    → Untouched g m
    → Untouched h m
    → Untouched (both g h) m
both-Untouched g h m p q s = (((p s).0, (q s).0), ((p s).1, (q s).1))
