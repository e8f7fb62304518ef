-- ===== src/Cmd/Bridges.antt =====
-- cmd/monitor/main.go: the bridges for which a monitor is made. A bridge that is enabled by an id
-- that the map has no entry for is a nil pointer, which is read when its monitor is made.
use tokenbridge_monitor.Base.{
  ◌≡◌, refl, ap, sym, subst, ◌||◌, ◌&&◌, inl, inr, String, Bool, true, false, not, Option, none,
  some, List, [], ◌∷◌, map, any, All, filter_by, find_by, find_by-none, find_by-some, All-imp,
  beq_refl, ◌==◌, string_eq, Bool-cases, arith, if◌then◌else◌,
}
use tokenbridge_monitor.Config.{BridgeConfig}
use tokenbridge_monitor.Repo.Join.{any-filter_by}
use tokenbridge_monitor.Exec.{Result, ok, err, panic}

abbrev pub is_disabled : List String → BridgeConfig → Bool
is_disabled disabled b = any (λ d. d == b.id) disabled

abbrev pub without_disabled : List String → List BridgeConfig → List BridgeConfig
without_disabled disabled bridges = filter_by (λ b. not (is_disabled disabled b)) bridges

abbrev pub bridge_with_id : List BridgeConfig → String → Option BridgeConfig
bridge_with_id bridges id = find_by (λ b. b.id == id) bridges

-- `newBridgeCfg[bridge] = …`: an id that is there twice is set once.
abbrev enabled_bridges : List String → List String → List BridgeConfig → List (Option BridgeConfig)
enabled_bridges marked [] bridges = []
enabled_bridges marked (id ∷ ids) bridges =
    let rest = enabled_bridges (id ∷ marked) ids bridges in
    let others = enabled_bridges marked ids bridges in
    if any (λ x. x == id) marked then others else bridge_with_id bridges id ∷ rest

-- `enabled` is `none` where the configuration does not set it.
unfoldable pub selected_bridges :
    List String → Option (List String) → List BridgeConfig → List (Option BridgeConfig)
selected_bridges disabled none bridges = map (λ b. some b) (without_disabled disabled bridges)
selected_bridges disabled (some ids) bridges =
    enabled_bridges [] ids (without_disabled disabled bridges)

abbrev pub add_bridge : BridgeConfig → Result (List BridgeConfig) → Result (List BridgeConfig)
add_bridge b (ok bs) = ok (b ∷ bs)
add_bridge b (err e) = err e
add_bridge b panic = panic

abbrev pub then_bridge :
    Option BridgeConfig → Result (List BridgeConfig) → Result (List BridgeConfig)
then_bridge none bs = panic
then_bridge (some b) bs = add_bridge b bs

-- `bridgeCfg.ID` for each of them.
unfoldable pub monitored_bridges : List (Option BridgeConfig) → Result (List BridgeConfig)
monitored_bridges [] = ok []
monitored_bridges (b ∷ bridges) = then_bridge b (monitored_bridges bridges)

-- Some bridge has the id and is not disabled.
abbrev pub is_usable : List String → List BridgeConfig → String → Bool
is_usable disabled bridges id = any (λ b. not (any (λ d. d == b.id) disabled) && b.id == id) bridges

module _ (usable : String → Bool) where
  abbrev Sound : List String → BridgeConfig → Type 0
  Sound ids b = (any (λ id. id == b.id) ids ≡ true) × (usable b.id ≡ true)

  abbrev Monitors : List String → List BridgeConfig → String → Type 0
  Monitors marked bs id = (any (λ x. x == id) marked || any (λ b. b.id == id) bs) ≡ true

  -- What is to be said of the bridges that are monitored for the enabled ids, where those that are
  -- marked have been seen to.
  abbrev pub Starts : (marked ids : List String) → Result (List BridgeConfig) → Type 0
  Starts marked ids (ok bs) =
      (any (λ id. not (usable id)) ids ≡ false)
      × All (λ b. (any (λ id. id == b.id) ids ≡ true) × (usable b.id ≡ true)) bs
      × All (λ id. (any (λ x. x == id) marked || any (λ b. b.id == id) bs) ≡ true) ids
  Starts marked ids (err e) = ⊥
  Starts marked ids panic = any (λ id. not (usable id)) ids ≡ true

  usable-marked :
      (id : String) (marked : List String)
      → All (λ x. usable x ≡ true) marked
      → any (λ x. x == id) marked ≡ true
      → usable id ≡ true
  usable-marked id [] a h = absurd (cc h)
  usable-marked id (x ∷ marked) a h = elim (Bool-cases (x == id)) [
    | inl same ↦ let e : x ≡ id = (string_eq.same_iff x id).0 same in rw (← e) a.0
    | inr other ↦ usable-marked id marked a.1 (ground arith)
  ]

  Starts-again :
      (id : String) (marked ids : List String) (r : Result (List BridgeConfig))
      → usable id ≡ true
      → any (λ x. x == id) marked ≡ true
      → Starts marked ids r
      → Starts marked (id ∷ ids) r
  Starts-again id marked ids (ok bs) known there (all, a, m) = (
    rw known all,
    All-imp (Sound ids) (Sound (id ∷ ids)) bs (λ b h. (ground (arith, h.0), h.1)) a,
    (rw there refl, m),
  )
  Starts-again id marked ids (err e) known there bad = bad
  Starts-again id marked ids panic known there h = rw known h

  Monitors-added :
      (b : BridgeConfig) (marked : List String) (bs : List BridgeConfig) (id : String)
      → Monitors (b.id ∷ marked) bs id
      → Monitors marked (b ∷ bs) id
  Monitors-added b marked bs id h = ground (arith, h)

  Starts-new :
      (b : BridgeConfig) (marked ids : List String) (r : Result (List BridgeConfig))
      → usable b.id ≡ true
      → Starts (b.id ∷ marked) ids r
      → Starts marked (b.id ∷ ids) (add_bridge b r)
  Starts-new b marked ids (ok bs) known (all, a, m) = (
    rw known all,
    (
      (rw (beq_refl b.id) refl, known),
      All-imp (Sound ids) (Sound (b.id ∷ ids)) bs (λ c h. (ground (arith, h.0), h.1)) a,
    ),
    (
      ground (arith, beq_refl b.id),
      All-imp (Monitors (b.id ∷ marked) bs) (Monitors marked (b ∷ bs)) ids
          (Monitors-added b marked bs) m,
    ),
  )
  Starts-new b marked ids (err c) known h = h
  Starts-new b marked ids panic known h = rw known h

module _ (bridges : List BridgeConfig) where
  abbrev there : String → Bool
  there id = any (λ b. b.id == id) bridges

  enabled-new :
      (id : String) (marked ids : List String) (o : Option BridgeConfig)
      (r : Result (List BridgeConfig))
      → bridge_with_id bridges id ≡ o
      → (there id ≡ true → Starts there (id ∷ marked) ids r)
      → Starts there marked (id ∷ ids) (then_bridge o r)
  enabled-new id marked ids none r e rest = rw (find_by-none (λ b. b.id == id) bridges e) refl
  enabled-new id marked ids (some b) r e rest =
      let (hit, known) = find_by-some (λ c. c.id == id) bridges b e in
      let same : b.id ≡ id = (string_eq.same_iff b.id id).0 hit in
      subst (λ i. Starts there marked (i ∷ ids) (add_bridge b r)) same
        (Starts-new there b marked ids r (rw same known)
          (subst (λ i. Starts there (i ∷ marked) ids r) (sym same) (rest known)))

  enabled-Starts :
      (marked ids : List String)
      → All (λ x. there x ≡ true) marked
      → Starts there marked ids (monitored_bridges (enabled_bridges marked ids bridges))
  unfolding monitored_bridges
  enabled-Starts marked [] a = (refl, tt, tt)
  enabled-Starts marked (id ∷ ids) a = elim (Bool-cases (any (λ x. x == id) marked)) [
    | inl again ↦ rw again (
        Starts-again there id marked ids _ (usable-marked there id marked a again) again
          (enabled-Starts marked ids a))
    | inr first ↦ rw first (
        enabled-new id marked ids (bridge_with_id bridges id) _ refl
          (λ known. enabled-Starts (id ∷ marked) ids (known, a)))
  ]

monitored-map :
    (bridges : List BridgeConfig) → monitored_bridges (map (λ b. some b) bridges) ≡ ok bridges
unfolding monitored_bridges
monitored-map [] = refl
monitored-map (b ∷ bridges) = ap (add_bridge b) (monitored-map bridges)

there-usable :
    (disabled : List String) (bridges : List BridgeConfig)
    → there (without_disabled disabled bridges) ≡ is_usable disabled bridges
there-usable disabled bridges i id =
    any-filter_by (λ b. b.id == id) (λ b. not (is_disabled disabled b)) bridges i

-- With no list of enabled bridges the program monitors every bridge that is not disabled. With one
-- it panics just if an enabled id is of no bridge, or only of one that is disabled; otherwise it
-- monitors a bridge for each enabled id, and only bridges that are enabled, configured and not
-- disabled.
pub monitored_bridges_lem :
    (disabled ids : List String) (bridges : List BridgeConfig)
    → (monitored_bridges (selected_bridges disabled none bridges)
        ≡ ok (filter_by (λ b. not (any (λ d. d == b.id) disabled)) bridges))
      × Starts
          (is_usable disabled bridges)
          []
          ids
          (monitored_bridges (selected_bridges disabled (some ids) bridges))
unfolding selected_bridges
monitored_bridges_lem disabled ids bridges = (
  monitored-map (without_disabled disabled bridges),
  subst
      (λ u.
        Starts u [] ids
          (monitored_bridges (enabled_bridges [] ids (without_disabled disabled bridges))))
      (there-usable disabled bridges)
      (enabled-Starts (without_disabled disabled bridges) [] ids tt),
)
