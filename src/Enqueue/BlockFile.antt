-- ===== src/Enqueue/BlockFile.antt =====
-- core/block_enqueue.go, GenerateBlockFileEnqueueFunction: the heights of a file, without
-- repetitions (util/utils.go), sorted, split at the node's range, and sent in order.
use cosmos_indexer.Prelude.{
  ℕ, ◌≡◌, ap, sym, ◌∙◌, not, ◌&&◌, ◌||◌, List, [], ◌∷◌, ◌++◌, map, arith, ltb, leb, if◌then◌else◌,
  elem, select, elem-select, sort_by, elem-sort_by, sort_by-Increasing, Increasing, Distinct,
  Increasing-select, Bool-cases, inl, inr,
}
use mathlib.Core.List.{append-nil, append_assoc, map-id, map-map}
use cosmos_indexer.Config.{IndexBase}
use cosmos_indexer.Enqueue.{EnqueueData}

-- `allKeys` is the list of the keys that the map holds so far.
remove_seen : List ℕ → List ℕ → List ℕ
remove_seen all_keys [] = []
remove_seen all_keys (item ∷ items) =
    if elem item all_keys
    then remove_seen all_keys items
    else item ∷ remove_seen (item ∷ all_keys) items

unfoldable pub remove_duplicates_from_uint64_slice : List ℕ → List ℕ
unfolding remove_seen
remove_duplicates_from_uint64_slice items = remove_seen [] items

-- The two lists that the range check fills: heights outside the node's range, and inside.
pub record Split : Type 0 where
  pub unindexable_block_heights : List ℕ
  pub block_in_range : List ℕ

split_range : ℕ → ℕ → List ℕ → Split → Split
split_range earliest latest [] s = s
split_range earliest latest (block ∷ blocks) s = split_range earliest latest blocks (
    if ltb latest block || ltb block earliest
    then record s { unindexable_block_heights = s.unindexable_block_heights ++ block ∷ [] }
    else record s { block_in_range = s.block_in_range ++ block ∷ [] })

-- The values sent, in order, for a file that parses and a node that answers with its range.
unfoldable pub enqueue_block_file : IndexBase → ℕ → ℕ → List ℕ → List EnqueueData
unfolding remove_duplicates_from_uint64_slice split_range
enqueue_block_file cfg earliest latest blocks_to_index =
    map (λ h. record { height = h; index_transactions = cfg.transaction_indexing_enabled })
      (split_range earliest latest
        (sort_by (λ h. h) (remove_duplicates_from_uint64_slice blocks_to_index))
        (record { unindexable_block_heights = []; block_in_range = [] })).block_in_range

-- What was seen is not listed again, and the rest of the file is.
elem-remove_seen :
    (h : ℕ) (seen items : List ℕ)
    → elem h (remove_seen seen items) ≡ (not (elem h seen) && elem h items)
unfolding remove_seen
elem-remove_seen h seen [] = ground arith
elem-remove_seen h seen (item ∷ items) =
    ground (arith, elem-remove_seen h seen items, elem-remove_seen h (item ∷ seen) items)

remove_seen-Distinct : (seen items : List ℕ) → Distinct (λ h. h) (remove_seen seen items)
unfolding remove_seen
remove_seen-Distinct seen [] = tt
remove_seen-Distinct seen (item ∷ items) = elim (Bool-cases (elem item seen)) [
  | inl e ↦ rw e (remove_seen-Distinct seen items)
  | inr e ↦ rw e (
    rw map-id (ground (arith, elem-remove_seen item (item ∷ seen) items)),
    remove_seen-Distinct (item ∷ seen) items,
  )
]

split_range-eq-select :
    (earliest latest : ℕ) (blocks : List ℕ) (s : Split)
    → (split_range earliest latest blocks s).block_in_range
      ≡ s.block_in_range ++ select (λ b. leb b latest && leb earliest b) blocks
unfolding split_range
split_range-eq-select earliest latest [] s = ground (arith, append-nil s.block_in_range)
split_range-eq-select earliest latest (b ∷ bs) s = ground (
  arith,
  append_assoc s.block_in_range (b ∷ []) (select (λ x. leb x latest && leb earliest x) bs),
  split_range-eq-select earliest latest bs
      (record s { unindexable_block_heights = s.unindexable_block_heights ++ b ∷ [] }),
  split_range-eq-select earliest latest bs
      (record s { block_in_range = s.block_in_range ++ b ∷ [] }),
)

-- The heights in range of a file, in the order in which they are sent.
heights_in_range : ℕ → ℕ → List ℕ → List ℕ
heights_in_range earliest latest file =
    select (λ b. leb b latest && leb earliest b)
      (sort_by (λ h. h) (remove_duplicates_from_uint64_slice file))

enqueue-heights :
    (cfg : IndexBase) (earliest latest : ℕ) (file : List ℕ)
    → map (λ b. b.height) (enqueue_block_file cfg earliest latest file)
      ≡ heights_in_range earliest latest file
unfolding enqueue_block_file heights_in_range
enqueue-heights cfg earliest latest file =
    let sorted = sort_by (λ h. h) (remove_duplicates_from_uint64_slice file) in
    map-map _ _ _
    ∙ map-id _
    ∙ split_range-eq-select earliest latest sorted
        (record { unindexable_block_heights = []; block_in_range = [] })

elem-deduped :
    (h : ℕ) (file : List ℕ)
    → elem h (sort_by (λ k. k) (remove_duplicates_from_uint64_slice file)) ≡ elem h file
unfolding remove_duplicates_from_uint64_slice
elem-deduped h file =
    ap (elem h) (sym (map-id _))
    ∙ elem-sort_by (λ k. k) h _
    ∙ ap (elem h) (map-id _)
    ∙ elem-remove_seen h [] file

-- A height is sent exactly when the file lists it and it lies in the node's range.
pub enqueue_block_file-elem :
    (cfg : IndexBase) (earliest latest : ℕ) (file : List ℕ) (h : ℕ)
    → elem h (map (λ b. b.height) (enqueue_block_file cfg earliest latest file))
      ≡ ((leb h latest && leb earliest h) && elem h file)
unfolding heights_in_range
enqueue_block_file-elem cfg earliest latest file h =
    let in_range = leb h latest && leb earliest h in
    rw (enqueue-heights cfg earliest latest file) (
      elem-select (λ b. leb b latest && leb earliest b) h _
      ∙ ap (◌&&◌ in_range) (elem-deduped h file))

-- The heights of a block file are sent in strictly increasing order, each once.
pub enqueue_block_file-Increasing :
    (cfg : IndexBase) (earliest latest : ℕ) (file : List ℕ)
    → Increasing (λ h. h) (map (λ b. b.height) (enqueue_block_file cfg earliest latest file))
unfolding heights_in_range remove_duplicates_from_uint64_slice
enqueue_block_file-Increasing cfg earliest latest file =
    rw (enqueue-heights cfg earliest latest file) (
      Increasing-select (λ h. h) _ _ (sort_by-Increasing (λ h. h) _ (remove_seen-Distinct [] file)))
