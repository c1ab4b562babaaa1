-- ===== src/Cache/Totals.antt =====
-- pkg/repository/cache.go: AddTotals and GetTotals, with the commands of redis that they use.
use cosmos_indexer.Prelude.{
  ℕ, ◌+◌, ◌*◌, ◌^◌, ◌<◌, ◌≡◌, Bool, true, false, String, Option, none, some,
}
use cosmos_indexer.Cache.Recent.{Json}

-- SET with a time to live, and GET, at a time in nanoseconds. `none` of `set` is an error, and `none` of `get` an error
-- or a key without a value.
pub record Strings : Type 1 where
  pub Server : Type 0
  pub set : String → String → ℕ → ℕ → Server → Option Server
  pub get_key : String → ℕ → Server → Option String

-- A server that is up, and does what the documentation of the commands says.
pub record StringsDocumented (d : Strings) : Type 0 where
  pub set_ok :
      (k v : String) (ttl now : ℕ) (s : d.Server)
      → (t : d.Server) × (d.set k v ttl now s ≡ some t)
        × ((later : ℕ) → later < now + ttl → d.get_key k later t ≡ some v)
        × ((later : ℕ) → now + ttl < later → d.get_key k later t ≡ none)

abbrev pub totals_key : String
totals_key = "c/totals"

-- Ten minutes.
abbrev pub totals_ttl : ℕ
totals_ttl = 600 * 10 ^ 9

module _ {A : Type 0} (json : Json A) (d : Strings) where
  -- `none` is a nil pointer.
  unfoldable pub add_totals : Option A → ℕ → d.Server → d.Server × Bool
  add_totals none now s = (s, true)
  add_totals (some info) now s = elim (json.marshal info) [
    | none ↦ (s, false)
    | some res ↦ elim (d.set totals_key res totals_ttl now s) [
      | none ↦ (s, false)
      | some t ↦ (t, true)
    ]
  ]

  unfoldable pub get_totals : ℕ → d.Server → Option A
  get_totals now s = elim (d.get_key totals_key now s) [
    | none ↦ none
    | some res ↦ json.unmarshal res
  ]
