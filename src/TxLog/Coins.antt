-- ===== src/TxLog/Coins.antt =====
-- cosmos/modules/tx/logic.go: the coins that an account spent or received. GetCoinsReceived is
-- GetCoinsSpent with the key "receiver" for "spender".
use Prim.Native.Char.{Char, code}
use cosmos_indexer.Prelude.{
  ℕ, ◌≡◌, refl, ◌∙◌, Bool, true, false, not, ◌&&◌, String, List, [], ◌∷◌, ◌++◌, ◌==◌, if◌then◌else◌,
  arith, inl, inr, Bool-cases, select, All,
}
use mathlib.Core.List.{append-nil}
use cosmos_indexer.Prelude.Text.{str_eq, eq_refl}
use cosmos_indexer.TxLog.{Attribute, LogMessageEvent}

-- A character before the first of the parts.
abbrev prepend : Char → List String → List String
prepend c [] = String.◌∷◌ c String.[] ∷ []
prepend c (w ∷ ws) = String.◌∷◌ c w ∷ ws

-- strings.Split by a separator of one character.
unfoldable pub split : ℕ → String → List String
split sep String.[] = "" ∷ []
split sep (String.◌∷◌ c s) =
    let parts = split sep s in if code c == sep then "" ∷ parts else prepend c parts

abbrev non_empty : String → Bool
non_empty s = not (str_eq s "")

-- The coins that the attribute after a match lists.
coins_at : List Attribute → List String
coins_at [] = []
coins_at (next ∷ rest) =
    if str_eq next.key "amount" then select non_empty (split b',' next.value) else []

-- The loop over the attributes of one event, from one of them on.
coins_of : String → String → List Attribute → List String
unfolding coins_at
coins_of key account [] = []
coins_of key account (a ∷ rest) =
    if str_eq a.key key && str_eq a.value account
    then coins_at rest ++ coins_of key account rest
    else coins_of key account rest

coins_of_events : String → String → List LogMessageEvent → List String
unfolding coins_of
coins_of_events key account [] = []
coins_of_events key account (e ∷ es) =
    coins_of key account e.attributes ++ coins_of_events key account es

unfoldable pub get_coins_spent : String → List LogMessageEvent → List String
unfolding coins_of_events
get_coins_spent spender evts = coins_of_events "spender" spender evts

unfoldable pub get_coins_received : String → List LogMessageEvent → List String
unfolding coins_of_events
get_coins_received receiver evts = coins_of_events "receiver" receiver evts

-- Texts joined by commas, as an `amount` lists coins.
abbrev comma : Char
comma = ","

abbrev pub concat : String → String → String
concat String.[] t = t
concat (String.◌∷◌ c s) t = String.◌∷◌ c (concat s t)

abbrev pub join : String → List String → String
join w [] = w
join w (v ∷ vs) = concat w (String.◌∷◌ comma (join v vs))

abbrev pub lacks_comma : String → Bool
lacks_comma String.[] = true
lacks_comma (String.◌∷◌ c s) = not (code c == b',') && lacks_comma s

abbrev pub IsCoin : String → Type 0
IsCoin s = (lacks_comma s ≡ true) × (non_empty s ≡ true)

split-plain : (w : String) → lacks_comma w ≡ true → split b',' w ≡ w ∷ []
unfolding split
split-plain String.[] h = refl
split-plain (String.◌∷◌ c s) h = elim (Bool-cases (code c == b',')) [
  | inl e ↦ ground (arith, e)
  | inr e ↦ rw (e, split-plain s (ground (arith, e)))
]

split-concat :
    (w rest : String)
    → lacks_comma w ≡ true
    → split b',' (concat w (String.◌∷◌ comma rest)) ≡ w ∷ split b',' rest
unfolding split
split-concat String.[] rest h = refl
split-concat (String.◌∷◌ c s) rest h = elim (Bool-cases (code c == b',')) [
  | inl e ↦ ground (arith, e)
  | inr e ↦ rw (e, split-concat s rest (ground (arith, e)))
]

-- Splitting at commas undoes joining with commas.
split-join :
    (w : String) (ws : List String)
    → IsCoin w
    → All IsCoin ws
    → select non_empty (split b',' (join w ws)) ≡ w ∷ ws
split-join w [] h hs = rw (split-plain w h.0, h.1)
split-join w (v ∷ vs) h hs = rw (split-concat w (join v vs) h.0, h.1, split-join v vs hs.0 hs.1)

-- An account and the coins that moved: at least one coin.
pub record Movement : Type 0 where
  pub account : String
  pub first_coin : String
  pub more_coins : List String

abbrev pub WellFormed : Movement → Type 0
WellFormed m = IsCoin m.first_coin × All IsCoin m.more_coins

-- The attributes that movements are logged as, under the key of the account.
abbrev pub logged : String → List Movement → List Attribute
logged key [] = []
logged key (m ∷ ms) =
    record { key = key; value = m.account }
    ∷ record { key = "amount"; value = join m.first_coin m.more_coins }
    ∷ logged key ms

abbrev pub coins_moved : String → List Movement → List String
coins_moved account [] = []
coins_moved account (m ∷ ms) =
    if str_eq m.account account
    then m.first_coin ∷ (m.more_coins ++ coins_moved account ms)
    else coins_moved account ms

coins_of-logged :
    (key account : String) (ms : List Movement)
    → str_eq "amount" key ≡ false
    → All WellFormed ms
    → coins_of key account (logged key ms) ≡ coins_moved account ms
unfolding coins_of
coins_of-logged key account [] n hs = refl
coins_of-logged key account (m ∷ ms) n hs = ground (
  arith,
  eq_refl key,
  eq_refl "amount",
  split-join m.first_coin m.more_coins hs.0.0 hs.0.1,
  coins_of-logged key account ms n hs.1,
)

-- From an event that logs movements of well-formed coins, GetCoinsSpent returns the coins of exactly
-- the spender's movements, in order.
pub get_coins_spent-logged :
    (spender : String) (ms : List Movement)
    → All WellFormed ms
    → get_coins_spent spender
        (record { type_name = "coin_spent"; attributes = logged "spender" ms } ∷ [])
      ≡ coins_moved spender ms
unfolding get_coins_spent
get_coins_spent-logged spender ms hs =
    append-nil (coins_of "spender" spender (logged "spender" ms))
    ∙ coins_of-logged "spender" spender ms refl hs
