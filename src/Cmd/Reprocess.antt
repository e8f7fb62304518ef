-- ===== src/Cmd/Reprocess.antt =====
-- cmd/reprocess_block_range/main.go: the checks of its arguments. Each refusal ends the program.
use Prim.Native.Nat.{max}
use tokenbridge_monitor.Base.{
  ℕ, ◌≤◌, ◌≡◌, refl, subst, inl, inr, String, Bool, true, false, Option, none, some, find_by,
  find_by-some, ltb, ◌==◌, nat_eq, string_eq, Bool-cases, arith, if◌then◌else◌,
}
use tokenbridge_monitor.Config.{BridgeConfig, BridgeSideConfig}
use tokenbridge_monitor.Config.Init.{Config}

pub record Arguments : Type 0 where
  pub bridge_id : String
  pub home : Bool
  pub foreign : Bool
  pub from_block : ℕ
  pub to_block : ℕ

pub data Refusal : Type 0 where
  no_bridge_id not_one_side unknown_bridge no_to_block to_before_from : Refusal

pub record BlockRange : Type 0 where
  pub bridge : BridgeConfig
  pub side : BridgeSideConfig
  pub from_block : ℕ
  pub to_block : ℕ

pub data Checked : Type 0 where
  accepted : BlockRange → Checked
  fatal : Refusal → Checked

abbrev same_flag : Bool → Bool → Bool
same_flag true b = b
same_flag false true = false
same_flag false false = true

abbrev raised : ℕ → ℕ → ℕ
raised from_block start_block = if ltb from_block start_block then start_block else from_block

abbrev check_range : BridgeConfig → BridgeSideConfig → ℕ → ℕ → Checked
check_range bridge side from_block to_block =
    if to_block == 0
    then fatal no_to_block
    else (if ltb to_block from_block
        then fatal to_before_from
        else accepted
            (record { bridge = bridge; side = side; from_block = from_block; to_block = to_block }))

abbrev check_bridge : Arguments → Option BridgeConfig → Checked
check_bridge args none = fatal unknown_bridge
check_bridge args (some bridge) =
    let side = if args.home then bridge.home else bridge.foreign in
    check_range bridge side (raised args.from_block side.start_block) args.to_block

unfoldable pub check_arguments : Config → Arguments → Checked
check_arguments cfg args =
    if args.bridge_id == ""
    then fatal no_bridge_id
    else (if same_flag args.home args.foreign
        then fatal not_one_side
        else check_bridge args (find_by (λ b. b.id == args.bridge_id) cfg.bridges))

abbrev IsRangeOf : Config → Arguments → BlockRange → Type 0
IsRangeOf cfg args r =
    (find_by (λ b. b.id == args.bridge_id) cfg.bridges ≡ some r.bridge)
    × ((r.bridge.id == args.bridge_id) ≡ true)
    × (r.side ≡ (if args.home then r.bridge.home else r.bridge.foreign))
    × (r.from_block ≡ max args.from_block r.side.start_block)
    × (r.from_block ≤ r.to_block)
    × (r.to_block ≡ args.to_block)

abbrev Accepts : (BlockRange → Type 0) → Checked → Type 0
Accepts P (accepted r) = P r
Accepts P (fatal e) = Unit

raised-max : (a b : ℕ) → raised a b ≡ max a b
raised-max a b = ground arith

module _ (cfg : Config) (args : Arguments) (bridge : BridgeConfig)
    (found : find_by (λ b. b.id == args.bridge_id) cfg.bridges ≡ some bridge) where
  check_range-Accepts :
      (side : BridgeSideConfig)
      → side ≡ (if args.home then bridge.home else bridge.foreign)
      → Accepts
          (IsRangeOf cfg args)
          (check_range bridge side (raised args.from_block side.start_block) args.to_block)
  check_range-Accepts side chosen = elim (Bool-cases (args.to_block == 0)) [
    | inl no_end ↦ rw no_end tt
    | inr ended ↦ elim (Bool-cases (ltb args.to_block (raised args.from_block side.start_block))) [
      | inl crossed ↦ rw (ended, crossed) tt
      | inr ordered ↦
          rw (ended, ordered)
            (
              found,
              (find_by-some _ cfg.bridges bridge found).0,
              chosen,
              raised-max _ _,
              ground arith,
              refl,
            )
    ]
  ]

check_bridge-Accepts :
    (cfg : Config) (args : Arguments) (o : Option BridgeConfig)
    → find_by (λ b. b.id == args.bridge_id) cfg.bridges ≡ o
    → Accepts (IsRangeOf cfg args) (check_bridge args o)
check_bridge-Accepts cfg args none e = tt
check_bridge-Accepts cfg args (some bridge) e =
    check_range-Accepts cfg args bridge e (if args.home then bridge.home else bridge.foreign) refl

check_arguments-Accepts :
    (cfg : Config) (args : Arguments) → Accepts (IsRangeOf cfg args) (check_arguments cfg args)
unfolding check_arguments
check_arguments-Accepts cfg args = elim (Bool-cases (args.bridge_id == "")) [
  | inl no_id ↦ rw no_id tt
  | inr id ↦ elim (Bool-cases (same_flag args.home args.foreign)) [
    | inl same ↦ rw (id, same) tt
    | inr one ↦ rw (id, one) (check_bridge-Accepts cfg args _ refl)
  ]
]

-- A range that passes the checks is of the bridge that the configuration has under the id of the
-- arguments, on the home side just if `home` was set. It begins at the block of the arguments or at
-- the start of the side, whichever is later, ends at the block of the arguments and is not empty.
pub check_arguments_lem :
    (cfg : Config) (args : Arguments) (r : BlockRange)
    → check_arguments cfg args ≡ accepted r
    → (find_by (λ b. b.id == args.bridge_id) cfg.bridges ≡ some r.bridge)
      × ((r.bridge.id == args.bridge_id) ≡ true)
      × (r.side ≡ (if args.home then r.bridge.home else r.bridge.foreign))
      × (r.from_block ≡ max args.from_block r.side.start_block)
      × (r.from_block ≤ r.to_block)
      × (r.to_block ≡ args.to_block)
check_arguments_lem cfg args r h =
    subst (Accepts (IsRangeOf cfg args)) h (check_arguments-Accepts cfg args)
