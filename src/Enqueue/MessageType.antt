-- ===== src/Enqueue/MessageType.antt =====
-- core/block_enqueue.go, GenerateMsgTypeEnqueueFunction: the blocks that have a message of one type. The
-- tables that the query joins are lists of rows; a database error ends the process in the source.
use cosmos_indexer.Prelude.{
  ℕ, ◌≡◌, refl, ap, sym, ◌∙◌, Bool, true, false, ◌&&◌, ◌||◌, ◌==◌, String, List, [], ◌∷◌, ◌++◌, map,
  if◌then◌else◌, elem, elem-append, arith, Bool-cases, inl, inr,
}
use mathlib.Core.List.{map-id, map-map}
use cosmos_indexer.Prelude.Int.{ℤ, pos, minus_one, leb_ℤ, eqb_ℤ}
use cosmos_indexer.Prelude.Text.{str_eq}
use cosmos_indexer.Models.{Block}
use cosmos_indexer.Config.{IndexBase}
use cosmos_indexer.Enqueue.{EnqueueData}
use cosmos_indexer.Database.Queries.{get_highest_indexed_block}

-- Rows by the columns that the query reads: a block with its id, a transaction as its id and its block's, a
-- message as its transaction's and its type's, a type as its id and its name.
pub record Tables : Type 0 where
  pub blocks : List (ℕ × Block)
  pub txes : List (ℕ × ℕ)
  pub messages : List (ℕ × ℕ)
  pub message_types : List (ℕ × String)

-- JOIN … ON: the rows that match, with what the rest of the query makes of each.
unfoldable pub join : {A B : Type 0} → (A → Bool) → (A → List B) → List A → List B
join on rest [] = []
join on rest (a ∷ as_) = let later = join on rest as_ in if on a then rest a ++ later else later

module _ (t : Tables) (chain : ℕ) (msg_type : String) (first last : ℤ) where
  unfoldable pub in_range : ℕ × Block → Bool
  in_range b = leb_ℤ first (pos b.1.height) && leb_ℤ (pos b.1.height) last && b.1.chain_id == chain

  unfoldable pub heights_with_message : List ℕ
  unfolding join in_range
  heights_with_message =
      join in_range
        (λ b.
          join (λ x. x.1 == b.0)
            (λ x.
              join (λ m. m.0 == x.0)
                (λ m.
                  join (λ y. y.0 == m.1 && str_eq y.1 msg_type) (λ y. b.1.height ∷ [])
                    t.message_types)
                t.messages)
            t.txes)
        t.blocks

unfoldable pub enqueue_message_type : IndexBase → Tables → ℕ → String → ℤ → ℤ → List EnqueueData
unfolding heights_with_message get_highest_indexed_block
enqueue_message_type cfg t chain msg_type start_block end_block =
    let last =
      if eqb_ℤ end_block minus_one
      then pos (get_highest_indexed_block chain (map (λ b. b.1) t.blocks)).height
      else end_block in
    map (λ h. record { height = h; index_transactions = cfg.transaction_indexing_enabled })
      (heights_with_message t chain msg_type start_block last)

-- Whether some row passes a test.
abbrev any : {A : Type 0} → (A → Bool) → List A → Bool
any test [] = false
any test (a ∷ as_) = test a || any test as_

elem-join :
    {A : Type 0} (h : ℕ) (c : Bool) (on test : A → Bool) (rest : A → List ℕ) (as_ : List A)
    → ((a : A) → elem h (rest a) ≡ (test a && c))
    → elem h (join on rest as_) ≡ (any (λ a. on a && test a) as_ && c)
unfolding join
elem-join h c on test rest [] same = refl
elem-join h c on test rest (a ∷ as_) same = elim (Bool-cases (on a)) [
  | inl e ↦
      rw (e, elem-append h (rest a) (join on rest as_), same a, elem-join h c on test rest as_ same)
        (shared (test a) (any (λ x. on x && test x) as_) c)
  | inr e ↦ rw (e, elem-join h c on test rest as_ same) refl
]
  where
    shared : (x y z : Bool) → (x && z || y && z) ≡ ((x || y) && z)
    shared x y z = ground arith

-- A block of the chain, of a height in the range.
abbrev pub of_chain : ℕ → ℤ → ℤ → ℕ × Block → Bool
of_chain chain first last b =
    leb_ℤ first (pos b.1.height) && leb_ℤ (pos b.1.height) last && b.1.chain_id == chain

module _ (t : Tables) (msg_type : String) where
  -- Whether a block has a transaction with a message of the type.
  abbrev pub has_message : ℕ × Block → Bool
  has_message b =
      any
        (λ x.
          x.1 == b.0
          && any
              (λ m.
                m.0 == x.0
                && any (λ y. (y.0 == m.1 && str_eq y.1 msg_type) && true) t.message_types)
              t.messages)
        t.txes

  abbrev pub some_block : ℕ → (ℕ × Block → Bool) → Bool
  some_block h test = any (λ b. test b && (has_message b && h == b.1.height)) t.blocks

  heights_with_message-elem :
      (chain h : ℕ) (first last : ℤ)
      → elem h (heights_with_message t chain msg_type first last)
        ≡ some_block h (in_range t chain msg_type first last)
  unfolding heights_with_message
  heights_with_message-elem chain h first last =
      elem-join h true _ (λ b. has_message b && h == b.1.height) _ t.blocks
        (λ b.
          elem-join h (h == b.1.height) (λ x. x.1 == b.0) _ _ t.txes
            (λ x.
              elem-join h (h == b.1.height) (λ m. m.0 == x.0) _ _ t.messages
                (λ m.
                  elem-join h (h == b.1.height) (λ y. y.0 == m.1 && str_eq y.1 msg_type) (λ y. true)
                    (λ y. b.1.height ∷ []) t.message_types (λ y. ground arith)))
          ∙ last_true (has_message b && h == b.1.height))
      ∙ sym (last_true (some_block h (in_range t chain msg_type first last)))
    where
      last_true : (x : Bool) → x ≡ (x && true)
      last_true true = refl
      last_true false = refl

  -- With a last block other than -1: a height is sent exactly when it is that of a block of the chain in the
  -- range, which has a transaction with a message of the type; without a last block, the range ends
  -- at the highest indexed block.
  pub enqueue_message_type-elem :
      (cfg : IndexBase) (chain h : ℕ) (start_block end_block : ℤ)
      → elem h
          (map (λ b. b.height) (enqueue_message_type cfg t chain msg_type start_block end_block))
        ≡ some_block h (
            of_chain chain start_block (
              if eqb_ℤ end_block minus_one
              then pos (get_highest_indexed_block chain (map (λ b. b.1) t.blocks)).height
              else end_block))
  unfolding enqueue_message_type in_range
  enqueue_message_type-elem cfg chain h start_block end_block =
      ap (elem h) (map-map _ _ _ ∙ map-id _) ∙ heights_with_message-elem chain h start_block _
