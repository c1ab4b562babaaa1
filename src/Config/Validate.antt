-- ===== src/Config/Validate.antt =====
-- config/index_config.go, Validate; config/common_configs.go, the checks that it calls. `file_exists` is the
-- answer of the file system on the filter file. The node's address is the list of its bytes.
use cosmos_indexer.Prelude.{
  ℕ, suc, ◌+◌, ◌≤◌, ◌≡◌, refl, ap, sym, ◌∙◌, Bool, true, false, not, ◌&&◌, ◌||◌, ◌==◌, String, List,
  [], ◌∷◌, ◌++◌, Option, none, some, if◌then◌else◌, is_some, arith, Bool-cases, Option-cases, inl,
  inr,
}
use cosmos_indexer.Prelude.Int.{ℤ, pos, ltb_ℤ, eqb_ℤ}
use cosmos_indexer.Prelude.Text.{str_eq, codes}
use cosmos_indexer.Config.{IndexBase}

pub record Database : Type 0 where
  pub host : String
  pub port : String
  pub database : String
  pub user : String
  pub password : String

pub record Probe : Type 0 where
  pub rpc : List ℕ
  pub account_prefix : String
  pub chain_id : String
  pub chain_name : String

pub record IndexConfig : Type 0 where
  pub database : Database
  pub base : IndexBase
  pub probe : Probe

pub data ConfigError : Type 0 where
  database_not_set probe_not_set bad_throttling nothing_to_index start_block_not_set
        end_block_not_set no_filter_file :
      ConfigError

unfoldable pub str_not_set : String → Bool
str_not_set value = str_eq value ""

unfoldable pub validate_database_conf : Database → Option ConfigError
unfolding str_not_set
validate_database_conf c =
    if str_not_set c.host
    then some database_not_set
    else (if str_not_set c.port
        then some database_not_set
        else (if str_not_set c.database
            then some database_not_set
            else (if str_not_set c.user
                then some database_not_set
                else (if str_not_set c.password then some database_not_set else none))))

-- `strings.Count(text, ":")`
unfoldable pub count_colons : List ℕ → ℕ
count_colons [] = 0
count_colons (c ∷ cs) = let rest = count_colons cs in if c == 58 then suc rest else rest

unfoldable pub has_prefix : List ℕ → List ℕ → Bool
has_prefix [] cs = true
has_prefix (p ∷ ps) [] = false
has_prefix (p ∷ ps) (c ∷ cs) = p == c && has_prefix ps cs

-- The address with the port of its scheme, where it has none.
unfoldable pub with_port : List ℕ → List ℕ
unfolding count_colons has_prefix
with_port rpc =
    if count_colons rpc == 2
    then rpc
    else (if has_prefix (codes "https:") rpc
        then rpc ++ codes ":443"
        else (if has_prefix (codes "http:") rpc then rpc ++ codes ":80" else rpc))

unfoldable pub validate_probe_conf : Probe → Probe × Option ConfigError
unfolding with_port str_not_set
validate_probe_conf c = elim (c.rpc) [
  | [] ↦ (c, some probe_not_set)
  | _ ∷ _ ↦
      let c' = record c { rpc = with_port c.rpc } in
      if str_not_set c.account_prefix
      then (c', some probe_not_set)
      else (if str_not_set c.chain_id
          then (c', some probe_not_set)
          else (if str_not_set c.chain_name then (c', some probe_not_set) else (c', none)))
]

unfoldable pub validate_throttling_conf : ℤ → Option ConfigError
validate_throttling_conf throttling = if ltb_ℤ throttling (pos 0) then some bad_throttling else none

module _ (file_exists : String → Bool) where
  -- The checks after those of the database and the probe.
  unfoldable pub validate_base : IndexBase → Option ConfigError
  unfolding validate_throttling_conf
  validate_base b = elim (validate_throttling_conf b.throttling) [
    | some e ↦ some e
    | none ↦
        if not b.transaction_indexing_enabled
        then some nothing_to_index
        else (if eqb_ℤ b.start_block (pos 0)
            then some start_block_not_set
            else (if eqb_ℤ b.end_block (pos 0)
                then some end_block_not_set
                else (if not (str_eq b.filter_file "") && not (file_exists b.filter_file)
                    then some no_filter_file
                    else none)))
  ]

  -- The configuration afterwards, and the error.
  unfoldable pub validate : IndexConfig → IndexConfig × Option ConfigError
  unfolding validate_database_conf validate_probe_conf validate_base
  validate conf = elim (validate_database_conf conf.database) [
    | some e ↦ (conf, some e)
    | none ↦
        let (probe, failed) = validate_probe_conf conf.probe in
        elim failed [
          | some e ↦ (conf, some e)
          | none ↦ (record conf { probe = probe }, validate_base conf.base)
        ]
  ]

-- What a valid configuration has.
abbrev is_set : String → Bool
is_set s = not (str_not_set s)

abbrev pub complete_database : Database → Bool
complete_database c =
    is_set c.host && is_set c.port && is_set c.database && is_set c.user && is_set c.password

abbrev is_filled : List ℕ → Bool
is_filled [] = false
is_filled (_ ∷ _) = true

abbrev pub complete_probe : Probe → Bool
complete_probe c =
    is_filled c.rpc && is_set c.account_prefix && is_set c.chain_id && is_set c.chain_name

abbrev pub complete_base : (String → Bool) → IndexBase → Bool
complete_base file_exists b =
    not (ltb_ℤ b.throttling (pos 0))
    && b.transaction_indexing_enabled
    && not (eqb_ℤ b.start_block (pos 0))
    && not (eqb_ℤ b.end_block (pos 0))
    && (str_eq b.filter_file "" || file_exists b.filter_file)

validate_database_conf_complete :
    (c : Database) → is_some (validate_database_conf c) ≡ not (complete_database c)
unfolding validate_database_conf
validate_database_conf_complete c = ground arith

validate_base_complete :
    (file_exists : String → Bool) (b : IndexBase)
    → is_some (validate_base file_exists b) ≡ not (complete_base file_exists b)
unfolding validate_base validate_throttling_conf
validate_base_complete file_exists b = elim (Bool-cases (ltb_ℤ b.throttling (pos 0))) [
  | inl e ↦ rw (validate_base, validate_throttling_conf, e) refl
  | inr e ↦
      rw (validate_base, validate_throttling_conf, e)
        (elim (Bool-cases (eqb_ℤ b.start_block (pos 0))) [
          | inl q ↦ rw q (ground arith)
          | inr q ↦ rw q (elim (Bool-cases (eqb_ℤ b.end_block (pos 0))) [
            | inl p ↦ rw p (ground arith)
            | inr p ↦ rw p (ground arith)
          ])
        ])
]

validate_probe_conf_complete :
    (c : Probe) → is_some (validate_probe_conf c).1 ≡ not (complete_probe c)
unfolding validate_probe_conf
validate_probe_conf_complete c = of_rpc c.rpc refl
  where
    of_rpc :
        (rpc : List ℕ) → c.rpc ≡ rpc → is_some (validate_probe_conf c).1 ≡ not (complete_probe c)
    of_rpc [] e = rw (validate_probe_conf, e) refl
    of_rpc (x ∷ xs) e = rw (validate_probe_conf, e) (ground arith)

-- Validate returns no error exactly for a configuration with a complete database, a complete node, a
-- throttling that is not negative, transactions to index, a first and a last block that are not 0, and
-- a filter file that exists, if it names one.
pub validate_complete :
    (file_exists : String → Bool) (conf : IndexConfig)
    → is_some (validate file_exists conf).1
      ≡ not (
          complete_database conf.database
          && complete_probe conf.probe
          && complete_base file_exists conf.base)
unfolding validate
validate_complete file_exists conf = elim (Option-cases (validate_database_conf conf.database)) [
  | inr (x, e) ↦
      rw (validate, e)
        (incomplete (complete_database conf.database) (complete_probe conf.probe)
          (complete_base file_exists conf.base)
          (sym (ap is_some e) ∙ validate_database_conf_complete conf.database))
  | inl e ↦ elim (Option-cases (validate_probe_conf conf.probe).1) [
    | inr (x, q) ↦
        rw (validate, e, q)
          (incomplete2 (complete_database conf.database) (complete_probe conf.probe)
            (complete_base file_exists conf.base)
            (sym (ap is_some q) ∙ validate_probe_conf_complete conf.probe))
    | inl q ↦
        rw (validate, e, q)
          (validate_base_complete file_exists conf.base
            ∙ both (complete_database conf.database) (complete_probe conf.probe)
                (complete_base file_exists conf.base)
                (sym (ap is_some e) ∙ validate_database_conf_complete conf.database)
                (sym (ap is_some q) ∙ validate_probe_conf_complete conf.probe))
  ]
]
  where
    incomplete : (a b c : Bool) → true ≡ not a → true ≡ not (a && b && c)
    incomplete a b c h = ground arith

    incomplete2 : (a b c : Bool) → true ≡ not b → true ≡ not (a && b && c)
    incomplete2 a b c h = ground arith

    both : (a b c : Bool) → false ≡ not a → false ≡ not b → not c ≡ not (a && b && c)
    both a b c h k = ground arith

count_colons-append : (a b : List ℕ) → count_colons (a ++ b) ≡ count_colons a + count_colons b
unfolding count_colons
count_colons-append [] b = omega arith
count_colons-append (c ∷ a) b = ground (arith, count_colons-append a b)

count_colons-has_prefix :
    (p cs : List ℕ) → has_prefix p cs ≡ true → count_colons p ≤ count_colons cs
unfolding count_colons has_prefix
count_colons-has_prefix [] cs h = omega arith
count_colons-has_prefix (p ∷ ps) [] h = ground arith
count_colons-has_prefix (p ∷ ps) (c ∷ cs) h = ground (arith, count_colons-has_prefix ps cs)

with_port-two : (rpc : List ℕ) → count_colons rpc ≡ 2 → with_port rpc ≡ rpc
unfolding with_port
with_port-two rpc h = rw (with_port, h) refl

-- For an address with at most two colons: adding the default port a second time changes nothing.
pub with_port-again :
    (rpc : List ℕ) → count_colons rpc ≤ 2 → with_port (with_port rpc) ≡ with_port rpc
unfolding with_port count_colons
with_port-again rpc h = elim (Bool-cases (count_colons rpc == 2)) [
  | inl e ↦ ap with_port (with_port-two rpc (ground arith))
  | inr e ↦ elim (Bool-cases (has_prefix (codes "https:") rpc)) [
    | inl q ↦
        let one = count_colons-has_prefix (codes "https:") rpc q in
        let added : with_port rpc ≡ rpc ++ codes ":443" = rw (with_port, e, q) refl in
        ap with_port added
        ∙ with_port-two (rpc ++ codes ":443")
            (sum (count_colons-append rpc (codes ":443")) (ground arith))
        ∙ sym added
    | inr q ↦ elim (Bool-cases (has_prefix (codes "http:") rpc)) [
      | inl p ↦
          let one = count_colons-has_prefix (codes "http:") rpc p in
          let added : with_port rpc ≡ rpc ++ codes ":80" = rw (with_port, e, q, p) refl in
          ap with_port added
          ∙ with_port-two (rpc ++ codes ":80")
              (sum (count_colons-append rpc (codes ":80")) (ground arith))
          ∙ sym added
      | inr p ↦ let same : with_port rpc ≡ rpc = rw (with_port, e, q, p) refl in ap with_port same
    ]
  ]
]
  where
    sum : {a b : ℕ} → a ≡ b + 1 → b ≡ 1 → a ≡ 2
    sum h k = omega arith
