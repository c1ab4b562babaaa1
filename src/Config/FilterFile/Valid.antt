-- ===== src/Config/FilterFile/Valid.antt =====
-- config/filter_config.go: the filters that the parser accepts are valid.
use cosmos_indexer.Prelude.{
  ℕ, suc, ◌+◌, ◌≡◌, refl, List, [], ◌∷◌, Result, ok, err, >>=-eq-ok, All, All-append, length,
  length-append, arith, Bool-cases, inl, inr, ap,
}
use mathlib.Core.Path.{subst}
use cosmos_indexer.Prelude.Text.{str_eq}
use cosmos_indexer.Filter.Regexp.{Regexp}
use cosmos_indexer.Filter.BlockEvent.{
  BlockEventFilter, valid, RollingWindowFilter, rolling_window_valid,
}
use cosmos_indexer.Config.FilterFile.{
  Json, BlockEventFilterConfig, Lifecycle, or_else, wrap, bad_json, invalid, at_index,
  single_block_event_filter_includes, parse_json_filter_config_from_type, parse_subfilters,
  add_rolling, add_single, parse_switch, parse_one, parse_filters, parse_lifecycle_config,
}

ok-injective : {E A : Type 0} {a b : A} → ◌≡◌ {A = Result E A} (ok a) (ok b) → a ≡ b
ok-injective h = cc

wrap-eq-ok : {E F A : Type 0} (f : E → F) (m : Result E A) {a : A} → wrap f m ≡ ok a → m ≡ ok a
wrap-eq-ok f (ok a) h = ap ok (ok-injective h)
wrap-eq-ok f (err e) h = cc

no_ok : {E A C : Type 0} {e : E} {a : A} → err e ≡ ok a → C
no_ok h = cc

module _ (r : Regexp) (j : Json) where
  abbrev pub ValidLifecycle : ℕ → Lifecycle r j → Type 0
  ValidLifecycle n l =
      All (λ f. valid r f ≡ ok tt) l.single_event_filters
      × All (λ f. rolling_window_valid r f ≡ ok tt) l.rolling_window_filters
      × (length l.single_event_filters + length l.rolling_window_filters ≡ n)

  add_rolling-Valid :
      (f : RollingWindowFilter r) (n : ℕ) (l m : Lifecycle r j)
      → add_rolling r j f l ≡ ok m
      → ValidLifecycle n l
      → ValidLifecycle (suc n) m
  unfolding add_rolling
  add_rolling-Valid f n l m h v =
      let (u, e, h2) = >>=-eq-ok (wrap invalid (rolling_window_valid r f)) _ h in
      subst (ValidLifecycle (suc n)) (ok-injective h2) (
        v.0,
        All-append _ l.rolling_window_filters (f ∷ []) v.1
            (wrap-eq-ok invalid (rolling_window_valid r f) e, tt),
        omega (arith, v.2, length-append l.rolling_window_filters (f ∷ [])),
      )

  add_single-Valid :
      (f : BlockEventFilter r) (n : ℕ) (l m : Lifecycle r j)
      → add_single r j f l ≡ ok m
      → ValidLifecycle n l
      → ValidLifecycle (suc n) m
  unfolding add_single
  add_single-Valid f n l m h v =
      let (u, e, h2) = >>=-eq-ok (wrap invalid (valid r f)) _ h in
      subst (ValidLifecycle (suc n)) (ok-injective h2) (
        All-append _ l.single_event_filters (f ∷ []) v.0 (wrap-eq-ok invalid (valid r f) e, tt),
        v.1,
        omega (arith, v.2, length-append l.single_event_filters (f ∷ [])),
      )

  parse_switch-Valid :
      (c : BlockEventFilterConfig j.Raw) (raw : j.Raw) (n : ℕ) (l m : Lifecycle r j)
      → parse_switch r j c raw l ≡ ok m
      → ValidLifecycle n l
      → ValidLifecycle (suc n) m
  unfolding parse_switch
  parse_switch-Valid c raw n l m h v = elim (Bool-cases (str_eq c.type_name "rolling_window")) [
    | inl e ↦
        let (ps, _, h2) = >>=-eq-ok (parse_subfilters r j 0 c.subfilters []) _ (rw e at h) in
        add_rolling-Valid _ n l m h2 v
    | inr e ↦ elim (Bool-cases (single_block_event_filter_includes c.type_name)) [
      | inl q ↦
          let (f, _, h2) =
            >>=-eq-ok (parse_json_filter_config_from_type r j c.type_name raw) _ (rw (e, q) at h) in
          add_single-Valid f n l m h2 v
      | inr q ↦ no_ok (rw (e, q) at h)
    ]
  ]

  parse_one-Valid :
      (raw : j.Raw) (n : ℕ) (l m : Lifecycle r j)
      → parse_one r j raw l ≡ ok m
      → ValidLifecycle n l
      → ValidLifecycle (suc n) m
  unfolding parse_one
  parse_one-Valid raw n l m h v =
      let (c, _, h2) = >>=-eq-ok (or_else bad_json (j.block_event_filter_config raw)) _ h in
      elim (Bool-cases (str_eq c.type_name "")) [
        | inl e ↦ no_ok (rw e at h2)
        | inr e ↦ parse_switch-Valid c raw n l m (rw e at h2) v
      ]

  parse_filters-Valid :
      (i : ℕ) (raws : List j.Raw) (n : ℕ) (l m : Lifecycle r j)
      → parse_filters r j i raws l ≡ ok m
      → ValidLifecycle n l
      → ValidLifecycle (length raws + n) m
  unfolding parse_filters
  parse_filters-Valid i [] n l m h v =
      subst (λ k. ValidLifecycle k m) (omega arith) (subst (ValidLifecycle n) (ok-injective h) v)
  parse_filters-Valid i (raw ∷ raws) n l m h v =
      let (p, e, h2) = >>=-eq-ok (wrap (at_index i) (parse_one r j raw l)) _ h in
      let one = parse_one-Valid raw n l p (wrap-eq-ok (at_index i) (parse_one r j raw l) e) v in
      subst (λ k. ValidLifecycle k m) (omega arith)
        (parse_filters-Valid (suc i) raws (suc n) p m h2 one)

  -- A lifecycle configuration that parses gives as many filters as it has entries, every one of them
  -- valid by its own test.
  pub parse_lifecycle_config-Valid :
      (raws : List j.Raw) (l : Lifecycle r j)
      → parse_lifecycle_config r j raws ≡ ok l
      → ValidLifecycle (length raws) l
  unfolding parse_lifecycle_config
  parse_lifecycle_config-Valid raws l h =
      let v = parse_filters-Valid 0 raws 0 _ l h (tt, tt, refl) in (v.0, v.1, omega (arith, v.2))
