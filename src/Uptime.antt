-- ===== src/Uptime.antt =====
-- pkg/repository/blocks.go, UptimeByBlocks after its query. `rows` are the heights that the query gives:
-- the blocks between `height - block_window` and `height`, both included, that the validator signed.
-- The window is taken not to be longer than the chain, and the percentage is left as its two counts.
use cosmos_indexer.Prelude.{
  ℕ, suc, zero, ◌+◌, ◌-◌, ◌≡◌, ◌≤◌, refl, Bool, false, not, ◌&&◌, ◌||◌, List, [], ◌∷◌, ◌++◌, map,
  if◌then◌else◌, elem, elem-append, arith, ltb, leb, Bool-cases, inl, inr, ◌∙◌, length,
}

pub record BlockSigned : Type 0 where
  pub block_height : ℕ
  pub signed : Bool

-- The keys of the map `data`.
unfoldable pub signed_heights : List ℕ → List ℕ → List ℕ
signed_heights [] data_ = data_
signed_heights (h ∷ hs) data_ = signed_heights hs (if elem h data_ then data_ else data_ ++ h ∷ [])

-- The loop from `init`, `n` heights long.
unfoldable pub unsigned_loop : List ℕ → ℕ → ℕ → List BlockSigned → List BlockSigned
unsigned_loop data_ init zero out = out
unsigned_loop data_ init (suc n) out =
    unsigned_loop data_ (suc init) n
      (if elem init data_ then out else out ++ record { block_height = init; signed = false } ∷ [])

-- The unsigned blocks, and the two counts whose quotient is the uptime.
unfoldable pub uptime_by_blocks : List ℕ → ℕ → ℕ → List BlockSigned × ℕ × ℕ
unfolding signed_heights unsigned_loop
uptime_by_blocks rows block_window height =
    let data_ = signed_heights rows [] in
    (unsigned_loop data_ (height - block_window) block_window [], length data_, block_window)

abbrev heights : List BlockSigned → List ℕ
heights = map (λ b. b.block_height)

heights-append :
    (k : ℕ) (xs ys : List BlockSigned)
    → elem k (heights (xs ++ ys)) ≡ (elem k (heights xs) || elem k (heights ys))
heights-append k [] ys = refl
heights-append k (x ∷ xs) ys = ground (arith, heights-append k xs ys)

signed_heights-elem :
    (k : ℕ) (hs data_ : List ℕ) → elem k (signed_heights hs data_) ≡ (elem k data_ || elem k hs)
unfolding signed_heights
signed_heights-elem k [] data_ = ground arith
signed_heights-elem k (h ∷ hs) data_ = elim (Bool-cases (elem h data_)) [
  | inl e ↦ rw e (signed_heights-elem k hs data_ ∙ ground (arith, e))
  | inr e ↦
      rw e
        (signed_heights-elem k hs (data_ ++ h ∷ []) ∙ ground (arith, elem-append k data_ (h ∷ [])))
]

unsigned_loop-elem :
    (k : ℕ) (data_ : List ℕ) (init n : ℕ) (out : List BlockSigned)
    → elem k (heights (unsigned_loop data_ init n out))
      ≡ (elem k (heights out) || leb init k && ltb k (init + n) && not (elem k data_))
unfolding unsigned_loop
unsigned_loop-elem k data_ init zero out = ground arith
unsigned_loop-elem k data_ init (suc n) out = ground (
  arith,
  unsigned_loop-elem k data_ (suc init) n out,
  unsigned_loop-elem k data_ (suc init) n
      (out ++ record { block_height = init; signed = false } ∷ []),
  heights-append k out (record { block_height = init; signed = false } ∷ []),
)

-- With a window not longer than the chain, the blocks listed as unsigned are the ones of the window, the
-- height itself left out, that the validator did not sign.
pub uptime_by_blocks-unsigned :
    (rows : List ℕ) (block_window height k : ℕ)
    → block_window ≤ height
    → elem k (heights (uptime_by_blocks rows block_window height).0)
      ≡ (leb (height - block_window) k && ltb k height && not (elem k rows))
unfolding uptime_by_blocks
uptime_by_blocks-unsigned rows w h k inside = ground (
  arith,
  unsigned_loop-elem k (signed_heights rows []) (h - w) w [],
  signed_heights-elem k rows [],
)
