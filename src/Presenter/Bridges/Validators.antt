-- ===== src/Presenter/Bridges/Validators.antt =====
-- Which validators are shown of a bridge.
use tokenbridge_monitor.Base.{
  ◌≡◌, refl, ap, ◌∙◌, sym, inl, inr, true, ◌||◌, List, [], ◌∷◌, ◌++◌, map, filter_by, All, All-imp,
  ◌==◌, bytes_eq, Bool-cases, beq_refl, arith, if◌then◌else◌,
}
use tokenbridge_monitor.Entity.{Address}
use tokenbridge_monitor.Config.{BridgeConfig}
use tokenbridge_monitor.Config.Init.{Config}
use tokenbridge_monitor.Repo.Store.{Store}
use tokenbridge_monitor.Repo.Find.{is_active, find_active_validators}
use tokenbridge_monitor.Exec.{ok, Session, query, continue, lift, ◌>>=◌}
use tokenbridge_monitor.Exec.Retryable.{clean}
use tokenbridge_monitor.Exec.Sequence.{bind-ok, lift-ok}
use tokenbridge_monitor.Presenter.Types.{ValidatorInfo, ValidatorsInfo}
use tokenbridge_monitor.Presenter.Bridges.{
  seen, get_validator_info, get_validator_infos, get_bridge_validators,
  find_active_validator_addresses,
}

-- The first of each run of equal addresses, without those that are marked.
abbrev pub distinct : List Address → List Address → List Address
distinct marked [] = []
distinct marked (x ∷ xs) =
    let rest = distinct (x ∷ marked) xs in
    let others = distinct marked xs in if seen marked x then others else x ∷ rest

seen_trans :
    (marked : List Address) (x y : Address)
    → (x == y) ≡ true
    → seen marked x ≡ true
    → seen marked y ≡ true
seen_trans marked x y e h = let p : x ≡ y = (bytes_eq.same_iff x y).0 e in rw (← p) h

-- What was there before is not shown again.
distinct-repeated :
    (marked xs ys : List Address)
    → All (λ y. (seen marked y || seen xs y) ≡ true) ys
    → distinct marked (xs ++ ys) ≡ distinct marked xs
distinct-repeated marked [] [] a = refl
distinct-repeated marked [] (y ∷ ys) a =
    let here : seen marked y ≡ true = ground (arith, a.0) in
    rw here (distinct-repeated marked [] ys a.1)
distinct-repeated marked (x ∷ xs) ys a = elim (Bool-cases (seen marked x)) [
  | inl old ↦ rw old (
      distinct-repeated marked xs ys (
        All-imp _ _ ys
          (λ y h. elim (Bool-cases (x == y)) [
            | inl same ↦ rw (seen_trans marked x y same old)
            | inr other ↦ ground arith
          ])
          a))
  | inr new ↦
      rw new
        (ap (◌∷◌ x) (distinct-repeated (x ∷ marked) xs ys (All-imp _ _ ys (λ y h. ground arith) a)))
]

All-seen : (xs : List Address) → All (λ y. seen xs y ≡ true) xs
All-seen [] = tt
All-seen (x ∷ xs) = (rw (beq_refl x), All-imp _ _ xs (λ y h. ground (arith, h)) (All-seen xs))

module _ (cfg : Config) (bridge : BridgeConfig) where
  get_validator_info-address :
      (val : Address) (s : Session) (info : ValidatorInfo) (s' : Session)
      → get_validator_info cfg bridge val s ≡ (ok info, s')
      → info.address ≡ val
  unfolding get_validator_info
  get_validator_info-address val s info s' h =
      let (c, t, _, g) = bind-ok _ _ s info s' h in
      let (i, t', _, g') = bind-ok _ _ t info s' g in
      ap (λ (v : ValidatorInfo). v.address) (sym (lift-ok _ info t' s' g'))

  get_validator_infos-distinct :
      (marked vs : List Address) (s : Session) (infos : List ValidatorInfo) (s' : Session)
      → get_validator_infos cfg bridge marked vs s ≡ (ok infos, s')
      → map (λ (v : ValidatorInfo). v.address) infos ≡ distinct marked vs
  unfolding get_validator_infos
  get_validator_infos-distinct marked [] s infos s' h =
      ap (map (λ (v : ValidatorInfo). v.address)) (sym (lift-ok [] infos s s' h))
  get_validator_infos-distinct marked (v ∷ vs) s infos s' h = elim (Bool-cases (seen marked v)) [
    | inl old ↦ rw old (get_validator_infos-distinct marked vs s infos s' (rw old at h))
    | inr new ↦
        let (i, t, e, g) = bind-ok _ _ s infos s' (rw new at h) in
        let (is', t', e', g') = bind-ok _ _ t infos s' g in
        rw (
          new,
          ← lift-ok _ infos t' s' g',
          get_validator_info-address v s i t e,
          get_validator_infos-distinct (v ∷ marked) vs t is' t' e',
        )
  ]

  -- Where it answers, GetBridgeValidators shows each active validator of the home side once, in the
  -- order of the table, and no other: the validators of the foreign side are not asked for.
  pub get_bridge_validators_lem :
      (s : Store) (info : ValidatorsInfo) (s' : Session)
      → get_bridge_validators cfg bridge (clean s) ≡ (ok info, s')
      → map (λ (v : ValidatorInfo). v.address) info.validators
        ≡ distinct [] (
            map
              (λ v. v.address)
              (filter_by (is_active bridge.id bridge.home.chain.chain_id) s.bridge_validators))
  unfolding get_bridge_validators find_active_validator_addresses find_active_validators query
      continue lift ◌>>=◌
  get_bridge_validators_lem s info s' h =
      let home =
        map (λ v. v.address)
          (filter_by (is_active bridge.id bridge.home.chain.chain_id) s.bridge_validators) in
      let (infos, t, e, g) =
        bind-ok (get_validator_infos cfg bridge [] (home ++ home)) _ (clean s) info s' h in
      rw (← lift-ok _ info t s' g) (
        get_validator_infos-distinct [] (home ++ home) (clean s) infos t e
        ∙ distinct-repeated [] home home (All-seen home))
