-- ===== src/Tx/Signers.antt =====
-- core/tx/processor.go, ProcessSigners. Resolving and unpacking a public key is a parameter; what it
-- gives is a multisig key with its members' addresses, a single key, or something else.
use cosmos_indexer.Prelude.{
  ℕ, ◌≡◌, refl, sym, ap, ◌∙◌, Bool, true, false, not, ◌||◌, String, List, [], ◌∷◌, ◌++◌, Option,
  none, some, Result, ok, err, ◌>>=◌, if◌then◌else◌, arith, ◌⊎◌, inl, inr, Bool-cases, Option-cases,
  All,
}
use cosmos_indexer.Prelude.Text.{
  str_eq, eq_iff, str_elem, add_key, str_elem-add_key, str_elem-append,
}
use mathlib.Core.Path.{subst}

pub data PubKey : Type 0 where
  multisig : List String → PubKey
  single : String → PubKey
  other : PubKey

-- A signer info of a transaction: the public key may be missing.
pub record RawSignerInfo (K : Type 0) : Type 0 where
  pub public_key : Option K
  pub sequence : ℕ
  pub mode_info : String

-- model.SignerInfo
pub record SignerInfo : Type 0 where
  pub address : Option String
  pub mode_info : String
  pub sequence : ℕ

-- The keys of `signerAddressMap`, and `signerAddressArray`.
pub record Signers : Type 0 where
  pub known : List String
  pub array : List String

unfoldable pub add_signer : String → Signers → Signers
add_signer a s = record {
  known = add_key a s.known;
  array = if str_elem a s.known then s.array else s.array ++ a ∷ [];
}

unfoldable pub add_signers : List String → Signers → Signers
unfolding add_signer
add_signers [] s = s
add_signers (a ∷ as_) s = add_signers as_ (add_signer a s)

-- `info.Address` after the loop over the members of a multisig key.
abbrev pub last_address : Option String → List String → Option String
last_address found [] = found
last_address found (a ∷ as_) = last_address (some a) as_

module _ {E K : Type 0} (resolve : K → Result E PubKey) where
  -- The loop over the signer infos. `ok none` is the early return without an error, and without any
  -- signer, at a key that is neither kind.
  unfoldable pub info_signers :
      List (RawSignerInfo K)
      → Signers
      → List SignerInfo
      → Result E (Option (Signers × List SignerInfo))
  unfolding add_signers
  info_signers [] s infos = ok (some (s, infos))
  info_signers (i ∷ is) s infos = elim (i.public_key) [
    | none ↦ info_signers is s infos
    | some k ↦ resolve k >>= λ key. elim key [
      | multisig members ↦ info_signers is (add_signers members s) (
          infos
          ++ record {
            address = last_address none members;
            mode_info = i.mode_info;
            sequence = i.sequence;
          }
            ∷ [])
      | single a ↦ info_signers is (add_signer a s) (
          infos ++ record { address = some a; mode_info = i.mode_info; sequence = i.sequence } ∷ [])
      | other ↦ ok none
    ]
  ]

  unfoldable pub process_signers :
      List (RawSignerInfo K) → List String → String → Result E (List String × List SignerInfo)
  unfolding info_signers
  process_signers infos message_signers payer =
      info_signers infos (record { known = []; array = [] }) [] >>= λ found. elim found [
        | none ↦ ok ([], [])
        | some (s, rows) ↦
            let t = add_signers message_signers s in
            ok ((if not (str_eq payer "") then add_signer payer t else t).array, rows)
      ]

-- The texts of a list, each where it stands first.
unfoldable pub first_seen : List String → List String → List String
first_seen seen [] = seen
first_seen seen (a ∷ as_) = first_seen (if str_elem a seen then seen else seen ++ a ∷ []) as_

-- The array is what the loops have seen, the keys of the map are the same addresses.
Matches : Signers → Type 0
Matches s = (a : String) → str_elem a s.known ≡ str_elem a s.array

add_signer-Matches : (a : String) (s : Signers) → Matches s → Matches (add_signer a s)
unfolding Matches add_signer
add_signer-Matches a s h x = elim (Bool-cases (str_elem a s.known)) [
  | inl e ↦ rw (e, str_elem-add_key x a s.known, h x) (absorb (sym (h a) ∙ e))
  | inr e ↦
      rw (e, str_elem-add_key x a s.known, h x, str_elem-append x s.array (a ∷ [])) (ground arith)
]
  where
    absorb : str_elem a s.array ≡ true → (str_eq a x || str_elem x s.array) ≡ str_elem x s.array
    absorb k = elim (Bool-cases (str_eq a x)) [
      | inl q ↦ rw (q, subst (λ y. str_elem y s.array ≡ true) ((eq_iff a x).0 q) k) refl
      | inr q ↦ rw q refl
    ]

add_signers-eq :
    (as_ : List String) (s : Signers)
    → Matches s
    → Matches (add_signers as_ s) × ((add_signers as_ s).array ≡ first_seen s.array as_)
unfolding Matches add_signers first_seen add_signer
add_signers-eq [] s h = (h, refl)
add_signers-eq (a ∷ as_) s h =
    let rest = add_signers-eq as_ (add_signer a s) (add_signer-Matches a s h) in
    (rest.0, rest.1 ∙ ap (λ b. first_seen (if b then s.array else s.array ++ a ∷ []) as_) (h a))

add_signers-append :
    (xs ys : List String) (s : Signers)
    → add_signers (xs ++ ys) s ≡ add_signers ys (add_signers xs s)
unfolding add_signers
add_signers-append [] ys s = refl
add_signers-append (x ∷ xs) ys s = add_signers-append xs ys (add_signer x s)

module _ {E : Type 0} where
  abbrev pub is_recognised : Result E PubKey → Bool
  is_recognised (ok (multisig _)) = true
  is_recognised (ok (single _)) = true
  is_recognised (ok other) = false
  is_recognised (err _) = false

  abbrev pub key_addresses : Result E PubKey → List String
  key_addresses (ok (multisig members)) = members
  key_addresses (ok (single a)) = a ∷ []
  key_addresses (ok other) = []
  key_addresses (err _) = []

recognised-cases :
    {E : Type 0} (p : Result E PubKey)
    → is_recognised p ≡ true
    → ((ms : List String) × (p ≡ ok (multisig ms))) ⊎ ((a : String) × (p ≡ ok (single a)))
recognised-cases (ok (multisig ms)) h = inl (ms, refl)
recognised-cases (ok (single a)) h = inr (a, refl)
recognised-cases (ok other) h = cc
recognised-cases (err e) h = cc

-- The payer as a list: none if it is the empty text.
abbrev pub payer_list : String → List String
payer_list payer = if not (str_eq payer "") then payer ∷ [] else []

module _ {E K : Type 0} (resolve : K → Result E PubKey) where
  abbrev pub known_key : Option K → Bool
  known_key none = true
  known_key (some k) = is_recognised (resolve k)

  abbrev pub info_addresses : List (RawSignerInfo K) → List String
  info_addresses [] = []
  info_addresses (i ∷ is) =
      (elim (i.public_key) [ none ↦ [] | some k ↦ key_addresses (resolve k) ]) ++ info_addresses is

  info_signers-eq :
      (is : List (RawSignerInfo K)) (s : Signers) (infos : List SignerInfo)
      → All (λ i. known_key i.public_key ≡ true) is
      → (rows : List SignerInfo) × (info_signers resolve is s infos
          ≡ ok (some (add_signers (info_addresses is) s, rows)))
  unfolding info_signers add_signers
  info_signers-eq [] s infos h = (infos, refl)
  info_signers-eq (i ∷ is) s infos h = elim (Option-cases i.public_key) [
    | inl e ↦ rw e (info_signers-eq is s infos h.1)
    | inr (k, e) ↦ elim (recognised-cases (resolve k) (subst (λ o. known_key o ≡ true) e h.0)) [
      | inl (ms, q) ↦
          rw (e, q, add_signers-append ms (info_addresses is) s)
            (info_signers-eq is (add_signers ms s) _ h.1)
      | inr (a, q) ↦ rw (e, q) (info_signers-eq is (add_signer a s) _ h.1)
    ]
  ]

  -- Where every public key resolves to a multisig or a single key, the signers are the addresses of the
  -- keys, then the signers of the messages, then the payer if one is named, in this order and each
  -- where it stands first.
  pub process_signers-first_seen :
      (is : List (RawSignerInfo K)) (message_signers : List String) (payer : String)
      → All (λ i. known_key i.public_key ≡ true) is
      → (rows : List SignerInfo) × (process_signers resolve is message_signers payer
          ≡ ok (first_seen [] (info_addresses is ++ message_signers ++ payer_list payer), rows))
  unfolding process_signers add_signers Matches
  process_signers-first_seen is ms payer h =
      let empty : Signers = record { known = []; array = [] } in
      let (rows, e) = info_signers-eq is empty [] h in
      let all =
        (add_signers-eq (info_addresses is ++ ms ++ payer_list payer) empty (λ a. refl)).1 in
      (
        rows,
        rw
            (
              e,
              sym all,
              add_signers-append (info_addresses is ++ ms) (payer_list payer) empty,
              add_signers-append (info_addresses is) ms empty,
            )
            (payer_last rows _),
      )
    where
      payer_last :
          (rows : List SignerInfo) (s : Signers)
          → ◌≡◌ {A = Result E (List String × List SignerInfo)}
              (ok ((if not (str_eq payer "") then add_signer payer s else s).array, rows))
              (ok ((add_signers (payer_list payer) s).array, rows))
      payer_last rows s = elim (Bool-cases (str_eq payer "")) [
        | inl e ↦ rw e refl
        | inr e ↦ rw e refl
      ]
