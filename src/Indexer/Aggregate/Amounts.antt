-- ===== src/Indexer/Aggregate/Amounts.antt =====
-- cmd/index.go, saveAggregated: the amount of the row that is saved.
use cosmos_indexer.Prelude.{
  ℕ, zero, suc, ◌<◌, ◌^◌, ◌≡◌, refl, ap, sym, ◌∙◌, Bool, true, false, not, ◌&&◌, ◌||◌, String, List,
  [], ◌∷◌, ◌++◌, none, some, if◌then◌else◌, arith, Bool-cases, Option-cases, inl, inr,
}
use cosmos_indexer.Prelude.Int.{ℤ, pos, sub_ℕ}
use cosmos_indexer.Prelude.Text.{str_eq, eq_iff}
use cosmos_indexer.Repository.Amount.{itoa, extract_number}
use cosmos_indexer.Repository.Amount.Read.{no_digits, extract_number-printed}
use cosmos_indexer.Indexer.Aggregate.{
  TxEvents, Aggregating, negate, is_amount, msg_delegate, msg_undelegate, mark_message, set_amount,
  mark_sender, aggregate_event, aggregate, save_aggregated, nothing_yet, TxDelegateAggregated,
  has_type,
}

-- An event that gives an amount received.
abbrev pub received_amount : TxEvents → Bool
received_amount e = str_eq e.type_name "coin_received" && str_eq e.key "amount"

is_amount-eq : (e : TxEvents) → is_amount e ≡ received_amount e
unfolding is_amount
is_amount-eq e = refl

negate-eq : (n : ℕ) → negate (pos n) ≡ sub_ℕ 0 n
unfolding negate
negate-eq zero = refl
negate-eq (suc n) = ground arith

abbrev pub no_amounts : List TxEvents → Bool
no_amounts [] = true
no_amounts (e ∷ es) = not (received_amount e) && no_amounts es

-- The two types differ, so that the code's `else if` is no restriction.
other_type :
    (t : String)
    → (not (str_eq t msg_delegate) && str_eq t msg_undelegate) ≡ str_eq t msg_undelegate
other_type t = elim (Bool-cases (str_eq t msg_delegate)) [
  | inr e ↦ rw e refl
  | inl e ↦ rw e (sym (ap (λ x. str_eq x msg_undelegate) ((eq_iff t msg_delegate).0 e)))
]

-- The amount that is chosen by flags, and that a row is saved.
chosen :
    (x y d u : Bool) (a b c : ℤ)
    → x ≡ d
    → y ≡ u
    → (d || u) ≡ true
    → (if x then a else (if y then b else c)) ≡ (if d then a else b)
chosen x y true u a b c p q h = rw p refl
chosen x y false true a b c p q h = rw (p, q) refl
chosen x y false false a b c p q h = ground arith

saved_if : {A : Type 0} (f : Bool) (row : A) → f ≡ true → (if f then some row else none) ≡ some row
saved_if f row h = rw h refl

still_marked :
    (x3 y3 x2 y2 d' u' d u : Bool)
    → x3 ≡ (x2 || d')
    → y3 ≡ (y2 || u')
    → x2 ≡ d
    → y2 ≡ u
    → (d || u) ≡ true
    → (x3 || y3) ≡ true
still_marked x3 y3 x2 y2 d' u' d u a b p q h = ground arith

module _ (coefficient_int64 : ℕ → ℤ) where
  -- What an event leaves of the sender's step: all but the sender.
  mark_sender-keeps :
      (e : TxEvents) (s : Aggregating)
      → ((mark_sender coefficient_int64 e s).is_msg_delegate ≡ s.is_msg_delegate)
        × ((mark_sender coefficient_int64 e s).is_msg_undelegate ≡ s.is_msg_undelegate)
        × ((mark_sender coefficient_int64 e s).row.amount ≡ s.row.amount)
        × ((mark_sender coefficient_int64 e s).row.denom ≡ s.row.denom)
  unfolding mark_sender
  mark_sender-keeps e s =
      elim (Bool-cases (str_eq e.type_name "coin_spent" && str_eq e.key "spender")) [
        | inl q ↦ rw (mark_sender, q) (refl, refl, refl, refl)
        | inr q ↦ rw (mark_sender, q) (refl, refl, refl, refl)
      ]

  aggregate-no_amounts :
      (es : List TxEvents) (s : Aggregating)
      → no_amounts es ≡ true
      → (s' : Aggregating) × (aggregate coefficient_int64 es s ≡ some s')
        × (s'.is_msg_delegate ≡ (s.is_msg_delegate || has_type msg_delegate es))
        × (s'.is_msg_undelegate ≡ (s.is_msg_undelegate || has_type msg_undelegate es))
        × (s'.row.amount ≡ s.row.amount)
        × (s'.row.denom ≡ s.row.denom)
  unfolding aggregate aggregate_event mark_message
  aggregate-no_amounts [] s h = (s, refl, ground arith, ground arith, refl, refl)
  aggregate-no_amounts (e ∷ es) s h = elim (Bool-cases (is_amount e)) [
    | inl q ↦ ground (arith, is_amount-eq e)
    | inr q ↦
        let s1 = mark_sender coefficient_int64 e (mark_message coefficient_int64 e s) in
        let (d1, u1, a1, n1) = mark_sender-keeps e (mark_message coefficient_int64 e s) in
        let (s2, done, d2, u2, a2, n2) =
          aggregate-no_amounts es s1 (rw (sym (is_amount-eq e) ∙ q) at h) in
        (
          s2,
          rw (aggregate, aggregate_event, q) done,
          d2 ∙ ap (λ x. x || has_type msg_delegate es) d1 ∙ ground arith,
          u2
              ∙ ap (λ x. x || has_type msg_undelegate es)
                  (u1 ∙ ap (λ x. s.is_msg_undelegate || x) (other_type e.message_type))
              ∙ ground arith,
          a2 ∙ a1,
          n2 ∙ n1,
        )
  ]

  aggregate-append :
      (front back : List TxEvents) (s s' : Aggregating)
      → aggregate coefficient_int64 front s ≡ some s'
      → aggregate coefficient_int64 (front ++ back) s ≡ aggregate coefficient_int64 back s'
  unfolding aggregate
  aggregate-append [] back s s' h =
      ap (aggregate coefficient_int64 back) (ap (λ o. elim o [ none ↦ s | some x ↦ x ]) h)
  aggregate-append (e ∷ es) back s s' h =
      elim (Option-cases (aggregate_event coefficient_int64 e s)) [
        | inl q ↦ nothing (rw (aggregate, q) at h)
        | inr (s1, q) ↦ rw (aggregate, q) (aggregate-append es back s1 s' (rw (aggregate, q) at h))
      ]
    where
      nothing : {C : Type 0} → none ≡ some s' → C
      nothing h = cc

  -- For the events of a transaction with one amount received, which is a printed coin of less than 2^63 and of
  -- a denomination without digits, by a message that delegates or undelegates or after one: a row is
  -- saved with that denomination, and with the amount, which is negative unless a message before it or
  -- its own delegates.
  pub save_aggregated_amount :
      ((n : ℕ) → n < 2 ^ 63 → coefficient_int64 n ≡ pos n)
      → (n : ℕ) (denom : List ℕ) (front back : List TxEvents) (e : TxEvents) → n < 2 ^ 63
      → no_digits denom ≡ true
      → no_amounts front ≡ true
      → no_amounts back ≡ true
      → e.type_name ≡ "coin_received"
      → e.key ≡ "amount"
      → e.value ≡ itoa (pos n) ++ denom
      → (has_type msg_delegate front
          || str_eq e.message_type msg_delegate
          || (has_type msg_undelegate front || str_eq e.message_type msg_undelegate))
        ≡ true
      → (row : TxDelegateAggregated) × (save_aggregated coefficient_int64 (front ++ e ∷ back)
          ≡ some row)
        × (row.amount ≡ (
            if has_type msg_delegate front || str_eq e.message_type msg_delegate
            then pos n
            else sub_ℕ 0 n))
        × (row.denom ≡ denom)
  unfolding save_aggregated aggregate aggregate_event mark_message set_amount
  save_aggregated_amount fits n denom front back e small plain f b kind key printed moved =
      let is : is_amount e ≡ true =
        is_amount-eq e
        ∙ ap (λ t. str_eq t "coin_received" && str_eq e.key "amount") kind
        ∙ ap (λ k. str_eq k "amount") key in
      let (s1, done1, d1, u1, a1, n1) = aggregate-no_amounts front nothing_yet f in
      let read =
        ap (extract_number coefficient_int64) printed
        ∙ extract_number-printed coefficient_int64 fits n denom small plain in
      let marked =
        set_amount coefficient_int64 (pos n, denom) (mark_message coefficient_int64 e s1) in
      let s2 = mark_sender coefficient_int64 e marked in
      let (d2, u2, a2, n2) = mark_sender-keeps e marked in
      let (s3, done3, d3, u3, a3, n3) = aggregate-no_amounts back s2 b in
      let all = aggregate-append front (e ∷ back) nothing_yet s1 done1 in
      let flag_d = ap (λ x. x || str_eq e.message_type msg_delegate) d1 in
      let flag_u =
        ap (λ x. s1.is_msg_undelegate || x) (other_type e.message_type)
        ∙ ap (λ x. x || str_eq e.message_type msg_undelegate) u1 in
      (
        s3.row,
        rw (save_aggregated, all, aggregate, aggregate_event, is, read, done3)
            (saved_if (s3.is_msg_delegate || s3.is_msg_undelegate) s3.row (
              still_marked s3.is_msg_delegate s3.is_msg_undelegate s2.is_msg_delegate
                s2.is_msg_undelegate _ _ _ _ d3 u3 (d2 ∙ flag_d) (u2 ∙ flag_u) moved)),
        a3
            ∙ a2
            ∙ chosen _ _ (has_type msg_delegate front || str_eq e.message_type msg_delegate)
                (has_type msg_undelegate front || str_eq e.message_type msg_undelegate) (pos n)
                (negate (pos n)) s1.row.amount flag_d flag_u moved
            ∙ ap
                (λ x.
                  if has_type msg_delegate front || str_eq e.message_type msg_delegate
                  then pos n
                  else x)
                (negate-eq n),
        n3 ∙ n2,
      )
