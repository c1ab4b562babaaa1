-- ===== src/Enqueue/Failed.antt =====
-- core/block_enqueue.go: which failed blocks are sent again, and in which order.
use cosmos_indexer.Prelude.{
  ℕ, ◌≡◌, refl, ◌∙◌, true, ◌||◌, List, [], ◌∷◌, map, arith, ◌==◌, elem, elem-sort_by,
  sort_by-Increasing, Increasing, Distinct, All, inl, inr, Bool-cases,
}
use cosmos_indexer.Enqueue.{EnqueueData, add_failure, unique_failures, failed_block_enqueue_data}

abbrev heights : List EnqueueData → List ℕ
heights = map (λ b. b.height)

elem-add_failure :
    (k h : ℕ) (bs : List EnqueueData)
    → elem k (heights (add_failure h bs)) ≡ (k == h || elem k (heights bs))
unfolding add_failure
elem-add_failure k h [] = refl
elem-add_failure k h (b ∷ bs) = ground (arith, elem-add_failure k h bs)

add_failure-Distinct :
    (h : ℕ) (bs : List EnqueueData)
    → Distinct (λ b. b.height) bs
    → Distinct (λ b. b.height) (add_failure h bs)
unfolding add_failure
add_failure-Distinct h [] d = (refl, tt)
add_failure-Distinct h (b ∷ bs) d = elim (Bool-cases (b.height == h)) [
  | inl e ↦ rw e (d.0, d.1)
  | inr e ↦ rw e (ground (arith, elem-add_failure b.height h bs), add_failure-Distinct h bs d.1)
]

unique_failures-Distinct :
    (hs : List ℕ) (bs : List EnqueueData)
    → Distinct (λ b. b.height) bs
    → Distinct (λ b. b.height) (unique_failures hs bs)
unfolding unique_failures
unique_failures-Distinct [] bs d = d
unique_failures-Distinct (h ∷ hs) bs d =
    unique_failures-Distinct hs (add_failure h bs) (add_failure-Distinct h bs d)

elem-unique_failures :
    (k : ℕ) (hs : List ℕ) (bs : List EnqueueData)
    → elem k (heights (unique_failures hs bs)) ≡ (elem k hs || elem k (heights bs))
unfolding unique_failures
elem-unique_failures k [] bs = refl
elem-unique_failures k (h ∷ hs) bs =
    ground (arith, elem-unique_failures k hs (add_failure h bs), elem-add_failure k h bs)

-- A height is sent again exactly when the table of failed blocks lists it.
pub failed_blocks-elem :
    (k : ℕ) (hs : List ℕ) → elem k (heights (failed_block_enqueue_data hs)) ≡ elem k hs
unfolding failed_block_enqueue_data
failed_blocks-elem k hs =
    elem-sort_by (λ b. b.height) k _ ∙ ground (arith, elem-unique_failures k hs [])

-- The failed blocks are sent again in strictly increasing order of height, each once, however often
-- the table lists them.
pub failed_blocks-Increasing :
    (hs : List ℕ) → Increasing (λ b. b.height) (failed_block_enqueue_data hs)
unfolding failed_block_enqueue_data
failed_blocks-Increasing hs =
    sort_by-Increasing (λ b. b.height) _ (unique_failures-Distinct hs [] tt)

add_failure-txs :
    (h : ℕ) (bs : List EnqueueData)
    → All (λ b. b.index_transactions ≡ true) bs
    → All (λ b. b.index_transactions ≡ true) (add_failure h bs)
unfolding add_failure
add_failure-txs h [] a = (refl, tt)
add_failure-txs h (b ∷ bs) a = elim (Bool-cases (b.height == h)) [
  | inl e ↦ rw e (refl, a.1)
  | inr e ↦ rw e (a.0, add_failure-txs h bs a.1)
]

pub unique_failures-txs :
    (hs : List ℕ) (bs : List EnqueueData)
    → All (λ b. b.index_transactions ≡ true) bs
    → All (λ b. b.index_transactions ≡ true) (unique_failures hs bs)
unfolding unique_failures
unique_failures-txs [] bs a = a
unique_failures-txs (h ∷ hs) bs a =
    unique_failures-txs hs (add_failure h bs) (add_failure-txs h bs a)
