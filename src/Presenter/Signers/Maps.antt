-- ===== src/Presenter/Signers/Maps.antt =====
-- Maps of signers: what setting a key changes, and what adding signers does.
use tokenbridge_monitor.Base.{
  ◌≡◌, refl, ◌∙◌, inl, inr, Bool, true, false, ◌||◌, ◌&&◌, Option, none, some, List, [], ◌∷◌, any,
  ◌==◌, bytes_eq, Bool-cases, beq_refl, arith,
}
use tokenbridge_monitor.Entity.{Hash, Address}
use tokenbridge_monitor.Presenter.Signers.{set_key, get_key, same_hash, SignersMap, has_signed}

abbrev pub listed : List Hash → Hash → Bool
listed hashes h = any (λ x. x == h) hashes

module _ {V : Type 0} (k : Hash) (v : V) where
  pub get_key-set_key_same :
      (m : List (Hash × V)) → get_key same_hash k (set_key same_hash k v m) ≡ some v
  get_key-set_key_same [] = rw (beq_refl k)
  get_key-set_key_same ((k', v') ∷ m) = elim (Bool-cases (k' == k)) [
    | inl hit ↦ rw (hit, hit)
    | inr miss ↦ rw (miss, miss) (get_key-set_key_same m)
  ]

  pub get_key-set_key_other :
      (k' : Hash) (m : List (Hash × V))
      → (k == k') ≡ false
      → get_key same_hash k' (set_key same_hash k v m) ≡ get_key same_hash k' m
  get_key-set_key_other k' [] other = rw other
  get_key-set_key_other k' ((h, w) ∷ m) other = elim (Bool-cases (h == k)) [
    | inl hit ↦
        let e : h ≡ k = (bytes_eq.same_iff h k).0 hit in
        let miss : (h == k') ≡ false = rw e other in rw (hit, miss)
    | inr miss ↦ elim (Bool-cases (h == k')) [
      | inl found ↦ rw (miss, found)
      | inr absent ↦ rw (miss, absent) (get_key-set_key_other k' m other)
    ]
  ]

abbrev pub is_some : {A : Type 0} → Option A → Bool
is_some none = false
is_some (some a) = true

abbrev pub is_known : SignersMap → Hash → Bool
is_known m h = is_some (get_key same_hash h m)

-- `m'` has the keys of `m`, and the signers of `m` with the `extra` ones.
pub record Marks (m m' : SignersMap) (extra : Hash → Address → Bool) : Type 0 where
  pub keys : (h : Hash) → is_known m' h ≡ is_known m h
  pub signed : (h : Hash) (a : Address) → has_signed m' h a ≡ (has_signed m h a || extra h a)

pub set_signers-Marks :
    (m : SignersMap) (k : Hash) (signer : Address) (signers : List Address)
    → get_key same_hash k m ≡ some signers
    → Marks m (set_key same_hash k (signer ∷ signers) m) (λ h a. k == h && signer == a)
set_signers-Marks m k signer signers found = record {
  keys = λ h. elim (Bool-cases (k == h)) [
    | inl same ↦
        let e : k ≡ h = (bytes_eq.same_iff k h).0 same in
        rw (← e, get_key-set_key_same k (signer ∷ signers) m, found)
    | inr other ↦ rw (get_key-set_key_other k (signer ∷ signers) h m other)
  ];
  signed = λ h a. elim (Bool-cases (k == h)) [
    | inl same ↦
        let e : k ≡ h = (bytes_eq.same_iff k h).0 same in
        rw (← e, get_key-set_key_same k (signer ∷ signers) m, found, beq_refl k) (ground arith)
    | inr other ↦ rw (get_key-set_key_other k (signer ∷ signers) h m other, other) (ground arith)
  ];
}

pub Marks-refl : (m : SignersMap) → Marks m m (λ h a. false)
Marks-refl m = record { keys = λ h. refl; signed = λ h a. ground arith }

pub Marks-trans :
    (m m' m'' : SignersMap) (e e' e'' : Hash → Address → Bool)
    → Marks m m' e
    → Marks m' m'' e'
    → ((h : Hash) (a : Address) → e'' h a ≡ (e h a || e' h a))
    → Marks m m'' e''
Marks-trans m m' m'' e e' e'' k k' both = record {
  keys = λ h. k'.keys h ∙ k.keys h;
  signed = λ h a. rw (k'.signed h a, k.signed h a, both h a) (ground arith);
}
