-- ===== src/Tx/Fees.antt =====
-- core/tx/processor.go, ProcessFees. A coin's amount is a big integer.
use cosmos_indexer.Prelude.{
  ap, All-map, ℕ, ◌≡◌, refl, not, String, List, [], ◌∷◌, ◌++◌, map, Option, none, some,
  if◌then◌else◌, arith, select, All, All-append, inl, inr, Bool-cases,
}
use mathlib.Core.List.{append-nil, append_assoc, map-append}
use cosmos_indexer.Prelude.Int.{ℤ, pos, eqb_ℤ}
use cosmos_indexer.Prelude.Text.{str_eq}
use cosmos_indexer.Models.{Address}
use cosmos_indexer.Tx.{Fee}

pub record Coin : Type 0 where
  pub denom : String
  pub amount : ℤ

pub record AuthFee : Type 0 where
  pub amount : List Coin
  pub payer : String
  pub granter : String
  pub gas_limit : ℕ

-- The generated `GetPayer` reads a missing fee as no payer.
abbrev pub get_payer : Option AuthFee → String
get_payer none = ""
get_payer (some f) = f.payer

unfoldable pub payer_addr : String → List Address → Address
payer_addr payer [] =
    if not (str_eq payer "") then record { address = payer } else record { address = "" }
payer_addr payer (s ∷ ss) = if not (str_eq payer "") then record { address = payer } else s

unfoldable pub fees_loop : String → List Address → List Coin → List Fee → List Fee
unfolding payer_addr
fees_loop payer signers [] fees = fees
fees_loop payer signers (c ∷ cs) fees = fees_loop payer signers cs (
    if not (eqb_ℤ (pos 0) c.amount)
    then fees
      ++ record {
        amount = c.amount;
        denomination = c.denom;
        payer_address = payer_addr payer signers;
      }
        ∷ []
    else fees)

unfoldable pub process_fees : Option AuthFee → List Address → List Fee
unfolding fees_loop
process_fees none signers = []
process_fees (some f) signers = fees_loop f.payer signers f.amount []

abbrev pub coin_of : Fee → Coin
coin_of f = record { denom = f.denomination; amount = f.amount }

fees_loop-eq :
    (payer : String) (signers : List Address) (cs : List Coin) (fees : List Fee)
    → map coin_of (fees_loop payer signers cs fees)
      ≡ map coin_of fees ++ select (λ c. not (eqb_ℤ (pos 0) c.amount)) cs
unfolding fees_loop
fees_loop-eq payer signers [] fees = ground (arith, append-nil (map coin_of fees))
fees_loop-eq payer signers (c ∷ cs) fees =
    let fee : Fee = record {
      amount = c.amount;
      denomination = c.denom;
      payer_address = payer_addr payer signers;
    } in
    ground (
      arith,
      fees_loop-eq payer signers cs fees,
      fees_loop-eq payer signers cs (fees ++ fee ∷ []),
      map-append coin_of fees (fee ∷ []),
      append_assoc (map coin_of fees) (c ∷ []) (select (λ x. not (eqb_ℤ (pos 0) x.amount)) cs),
    )

fees_loop-payer :
    (payer : String) (signers : List Address) (cs : List Coin) (fees : List Fee)
    → All (λ f. f.payer_address ≡ payer_addr payer signers) fees
    → All (λ f. f.payer_address ≡ payer_addr payer signers) (fees_loop payer signers cs fees)
unfolding fees_loop
fees_loop-payer payer signers [] fees h = h
fees_loop-payer payer signers (c ∷ cs) fees h = elim (Bool-cases (not (eqb_ℤ (pos 0) c.amount))) [
  | inl e ↦ rw e (fees_loop-payer payer signers cs _ (All-append _ fees _ h (refl, tt)))
  | inr e ↦ rw e (fees_loop-payer payer signers cs fees h)
]

-- A fee is charged to the payer who is named; without one to the first signer, and without signers to nobody.
abbrev pub Charged : String → List Address → Fee → Type 0
Charged payer signers x =
    if str_eq payer ""
    then (elim signers [ [] ↦ x.payer_address.address ≡ "" | s ∷ _ ↦ x.payer_address ≡ s ])
    else x.payer_address.address ≡ payer

payer_addr-Charged :
    (payer : String) (signers : List Address) (x : Fee)
    → x.payer_address ≡ payer_addr payer signers
    → Charged payer signers x
unfolding payer_addr
payer_addr-Charged payer [] x h = elim (Bool-cases (str_eq payer "")) [
  | inl e ↦ rw e (ap (λ a. a.address) (rw (payer_addr, e) at h))
  | inr e ↦ rw e (ap (λ a. a.address) (rw (payer_addr, e) at h))
]
payer_addr-Charged payer (s ∷ ss) x h = elim (Bool-cases (str_eq payer "")) [
  | inl e ↦ rw e (rw (payer_addr, e) at h)
  | inr e ↦ rw e (ap (λ a. a.address) (rw (payer_addr, e) at h))
]

-- The fees are the fee's coins of a non-zero amount, in order, each charged to the fee's payer, or to
-- the first signer where no payer is named.
pub process_fees_correct :
    (f : AuthFee) (signers : List Address)
    → (map coin_of (process_fees (some f) signers)
        ≡ select (λ c. not (eqb_ℤ (pos 0) c.amount)) f.amount)
      × All (Charged f.payer signers) (process_fees (some f) signers)
unfolding process_fees
process_fees_correct f signers = (
  fees_loop-eq f.payer signers f.amount [],
  All-map (λ x. x.payer_address ≡ payer_addr f.payer signers) (Charged f.payer signers)
      (fees_loop f.payer signers f.amount []) (payer_addr-Charged f.payer signers)
      (fees_loop-payer f.payer signers f.amount [] tt),
)
