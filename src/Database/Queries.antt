-- ===== src/Database/Queries.antt =====
-- db/db.go: the queries on the table of blocks that say what is indexed.
use cosmos_indexer.Prelude.{
  ℕ, zero, suc, ◌+◌, ◌-◌, Bool, false, not, ◌&&◌, List, [], ◌∷◌, map, Option, none, some, ◌==◌, leb,
  if◌then◌else◌, select, elem,
}
use cosmos_indexer.Prelude.Int.{ℤ, pos, negsuc, ltb_ℤ}
use cosmos_indexer.Models.{Block}

-- The time 0001-01-01, from which instants count, and the zero value of a block.
abbrev pub zero_time : ℕ
zero_time = 0

unfoldable pub no_block : Block
no_block = record {
  time_stamp = zero_time;
  height = 0;
  chain_id = 0;
  proposer_cons_address = record { address = "" };
  tx_indexed = false;
  total_txs = 0;
  block_hash = "";
  signatures = [];
}

-- The condition chain_id = … AND tx_indexed = true AND time_stamp != '0001-01-01'.
unfoldable pub is_indexed : ℕ → Block → Bool
is_indexed chain b = b.chain_id == chain && b.tx_indexed && not (b.time_stamp == zero_time)

-- ORDER BY height DESC LIMIT 1
unfoldable pub highest : List Block → Option Block
highest [] = none
highest (b ∷ bs) = elim (highest bs) [
  | none ↦ some b
  | some c ↦ if leb c.height b.height then some b else some c
]

-- `First` leaves the zero value where there is no row.
unfoldable pub get_highest_indexed_block : ℕ → List Block → Block
unfolding no_block is_indexed highest
get_highest_indexed_block chain rows = elim (highest (select (is_indexed chain) rows)) [
  | none ↦ no_block
  | some b ↦ b
]

-- EXISTS (SELECT 1 FROM blocks WHERE height = i AND …)
unfoldable pub height_indexed : ℕ → List Block → ℤ → Bool
unfolding is_indexed
height_indexed chain rows (pos h) = elem h (map (λ b. b.height) (select (is_indexed chain) rows))
height_indexed chain rows (negsuc n) = false

unfoldable pub next : ℤ → ℤ
next (pos n) = pos (suc n)
next (negsuc zero) = pos 0
next (negsuc (suc n)) = negsuc n

-- The number of elements of generate_series(first, last).
unfoldable pub series_length : ℤ → ℤ → ℕ
series_length first last = if ltb_ℤ last first then 0 else series_size first last
  where
    series_size : ℤ → ℤ → ℕ
    series_size (pos a) (pos b) = suc b - a
    series_size (negsuc a) (pos b) = suc b + suc a
    series_size (negsuc a) (negsuc b) = suc a - b
    series_size (pos a) (negsuc b) = 0

-- The first element of the series, in ascending order, that no row has.
unfoldable pub first_missing : (ℤ → Bool) → ℕ → ℤ → Option ℤ
unfolding next
first_missing known zero i = none
first_missing known (suc n) i =
    let later = first_missing known n (next i) in if known i then later else some i

-- A database error ends the process in the source; without a row, the answer is the first height.
unfoldable pub get_first_missing_block_in_range : ℕ → List Block → ℤ → ℤ → ℤ
unfolding get_highest_indexed_block height_indexed series_length first_missing
get_first_missing_block_in_range chain rows first last =
    let top = (get_highest_indexed_block chain rows).height in
    let last' = if ltb_ℤ first (pos top) then pos (suc top) else last in
    elim (first_missing (height_indexed chain rows) (series_length first last') first) [
      | none ↦ first
      | some i ↦ i
    ]
