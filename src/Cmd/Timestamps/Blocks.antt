-- ===== src/Cmd/Timestamps/Blocks.antt =====
-- Which blocks cmd/fix_block_timestamps/main.go asks for.
use tokenbridge_monitor.Base.{
  ◌≡◌, refl, ◌∙◌, sym, subst, beq_refl, inl, inr, Bool, true, false, ◌||◌, List, [], ◌∷◌, arith,
  any, All, All-imp, any-same, Bool-cases, nat_eq, string_eq,
}
use tokenbridge_monitor.Entity.{Log, BlockTimestamp}
use tokenbridge_monitor.Repo.Store.{Store}
use tokenbridge_monitor.Cmd.Timestamps.{is_of_block, has_timestamp, same_block, blocks_of}

-- Two logs of the same block have the same timestamps.
is_of_block-same :
    (x l : Log) (bt : BlockTimestamp) → same_block x l ≡ true → is_of_block x bt ≡ is_of_block l bt
is_of_block-same x l bt h =
    let chains : x.chain_id ≡ l.chain_id =
      (string_eq.same_iff x.chain_id l.chain_id).0 (ground arith) in
    let numbers : x.block_number ≡ l.block_number =
      (nat_eq.same_iff x.block_number l.block_number).0 (ground arith) in
    rw (chains, numbers) refl

abbrev pub seen : List Log → Log → Bool
seen xs l = any (λ x. same_block x l) xs

blocks_of-old :
    (marked : List Log) (l : Log) (ls : List Log)
    → seen marked l ≡ true
    → blocks_of marked (l ∷ ls) ≡ blocks_of marked ls
blocks_of-old marked l ls h = rw h refl

blocks_of-new :
    (marked : List Log) (l : Log) (ls : List Log)
    → seen marked l ≡ false
    → blocks_of marked (l ∷ ls) ≡ l ∷ blocks_of (l ∷ marked) ls
blocks_of-new marked l ls h = rw h refl

pub same_block_refl : (l : Log) → same_block l l ≡ true
same_block_refl l = rw (beq_refl l.chain_id, beq_refl l.block_number) refl

-- Each log is of a block that is marked or one of the entries.
pub covered :
    (marked ls : List Log) → All (λ l. (seen marked l || seen (blocks_of marked ls) l) ≡ true) ls
covered marked [] = tt
covered marked (l ∷ ls) = elim (Bool-cases (seen marked l)) [
  | inl old ↦
      subst (λ bs. All (λ y. (seen marked y || seen bs y) ≡ true) (l ∷ ls))
        (sym (blocks_of-old marked l ls old)) (ground (arith, old), covered marked ls)
  | inr new ↦
      subst (λ bs. All (λ y. (seen marked y || seen bs y) ≡ true) (l ∷ ls))
        (sym (blocks_of-new marked l ls new))
        (
          ground (arith, same_block_refl l),
          All-imp _ _ ls (λ y h. ground (arith, h)) (covered (l ∷ marked) ls),
        )
]

pub All-blocks_of :
    (Q : Log → Type 0) (marked ls : List Log) → All Q ls → All Q (blocks_of marked ls)
All-blocks_of Q marked [] a = tt
All-blocks_of Q marked (l ∷ ls) a = elim (Bool-cases (seen marked l)) [
  | inl old ↦ subst (All Q) (sym (blocks_of-old marked l ls old)) (All-blocks_of Q marked ls a.1)
  | inr new ↦
      subst (All Q) (sym (blocks_of-new marked l ls new)) (a.0, All-blocks_of Q (l ∷ marked) ls a.1)
]

-- A log with an entry of its block has a timestamp where the entries have.
pub seen-has_timestamp :
    (t : Store) (bs : List Log) (l : Log)
    → All (λ x. has_timestamp t x ≡ true) bs
    → seen bs l ≡ true
    → has_timestamp t l ≡ true
seen-has_timestamp t [] l a h = absurd (cc h)
seen-has_timestamp t (x ∷ bs) l a h = elim (Bool-cases (same_block x l)) [
  | inl hit ↦
      sym (
        any-same (is_of_block x) (is_of_block l) t.block_timestamps
          (λ bt. is_of_block-same x l bt hit))
      ∙ a.0
  | inr miss ↦ seen-has_timestamp t bs l a.1 (rw miss at h)
]
