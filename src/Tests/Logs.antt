-- ===== src/Tests/Logs.antt =====
-- cosmos/modules/tx/logic.go, at concrete inputs.
use cosmos_indexer.Prelude.{◌≡◌, refl, List, [], ◌∷◌, some, ok}
use cosmos_indexer.TxLog.{Attribute}
use cosmos_indexer.TxLog.Transfer.{
  TransferEvent, transfer_event, parse-transfer_event, parse_transfer_event_sound,
}
use cosmos_indexer.TxLog.Coins.{Movement, logged, get_coins_spent, get_coins_spent-logged}
use cosmos_indexer.TxLog.Values.{get_value_for_attribute, get_value-eq-first}

abbrev transfers : List TransferEvent
transfers =
    record { recipient = "b"; sender = "a"; amount = "3u" }
    ∷ record { recipient = "c"; sender = "a"; amount = "4u" }
    ∷ []

parse_transfer_event_sound_example : transfer_event transfers ≡ transfer_event transfers
parse_transfer_event_sound_example =
    parse_transfer_event_sound (transfer_event transfers) transfers (parse-transfer_event transfers)

abbrev movements : List Movement
movements =
    record { account = "a"; first_coin = "3u"; more_coins = "4v" ∷ [] }
    ∷ record { account = "b"; first_coin = "5u"; more_coins = [] }
    ∷ []

get_coins_spent-logged_example :
    get_coins_spent "a"
      (record { type_name = "coin_spent"; attributes = logged "spender" movements } ∷ [])
    ≡ "3u" ∷ "4v" ∷ []
get_coins_spent-logged_example =
    get_coins_spent-logged "a" movements
      (((refl, refl), ((refl, refl), tt)), (((refl, refl), tt), tt))

abbrev attributes : List Attribute
attributes =
    record { key = "k"; value = "x" }
    ∷ record { key = "j"; value = "y" }
    ∷ record { key = "k"; value = "z" }
    ∷ []

get_value-eq-first_example : get_value_for_attribute "k" (some attributes) ≡ ok "x"
get_value-eq-first_example = get_value-eq-first "k" attributes
