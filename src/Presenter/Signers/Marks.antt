-- ===== src/Presenter/Signers/Marks.antt =====
-- What makeSignersMap makes: the map says of a hash and an address whether a signature was given.
use tokenbridge_monitor.Base.{
  ◌≡◌, refl, ap, ◌∙◌, sym, inl, inr, Bool, true, false, ◌||◌, ◌&&◌, List, [], ◌∷◌, any, All, ◌==◌,
  bytes_eq, Bool-cases, Option-cases, beq_refl, arith,
}
use tokenbridge_monitor.Entity.{Hash, Address, SignedMessage}
use tokenbridge_monitor.Exec.{Result, ok}
use tokenbridge_monitor.Presenter.Bridges.{seen}
use tokenbridge_monitor.Presenter.Signers.{
  set_key, get_key, same_hash, SignersMap, mark_signer, then_signers, empty_signers,
  mark_signatures, mark_all, mark_known, mark_manual, make_signers_map, has_signed,
}
use tokenbridge_monitor.Presenter.Signers.Maps.{
  Marks, Marks-refl, Marks-trans, get_key-set_key_other, get_key-set_key_same, is_known, is_some,
  listed, set_signers-Marks,
}

-- The result of marking: there is no panic.
abbrev Marked : SignersMap → Result SignersMap → (Hash → Address → Bool) → Type 0
Marked m r extra = (m' : SignersMap) × (r ≡ ok m') × Marks m m' extra

Marked-then :
    (m : SignersMap) (r : Result SignersMap) (f : SignersMap → Result SignersMap)
    (e e' e'' : Hash → Address → Bool)
    → Marked m r e
    → ((m' : SignersMap) → Marks m m' e → Marked m' (f m') e')
    → ((h : Hash) (a : Address) → e'' h a ≡ (e h a || e' h a))
    → Marked m (then_signers r f) e''
Marked-then m r f e e' e'' (m', done, k) next both =
    let (m'', done', k') = next m' k in
    (m'', rw done done', Marks-trans m m' m'' e e' e'' k k' both)

mark_signer-Marked :
    (h : Hash) (signer : Address) (m : SignersMap)
    → is_known m h ≡ true
    → Marked m (mark_signer h signer m) (λ h' a. h == h' && signer == a)
mark_signer-Marked h signer m known = elim (Option-cases (get_key same_hash h m)) [
  | inl absent ↦ absurd (cc (rw absent at known))
  | inr (signers, found) ↦ (
    set_key same_hash h (signer ∷ signers) m,
    rw found,
    set_signers-Marks m h signer signers found,
  )
]

All-known :
    (sigs : List SignedMessage) (m m' : SignersMap) {e : Hash → Address → Bool}
    → Marks m m' e
    → All (λ sig. is_known m sig.msg_hash ≡ true) sigs
    → All (λ sig. is_known m' sig.msg_hash ≡ true) sigs
All-known [] m m' k known = tt
All-known (sig ∷ sigs) m m' k known = (k.keys sig.msg_hash ∙ known.0, All-known sigs m m' k known.1)

mark_signatures-Marked :
    (sigs : List SignedMessage) (m : SignersMap)
    → All (λ sig. is_known m sig.msg_hash ≡ true) sigs
    → Marked m
        (mark_signatures sigs m)
        (λ h a. any (λ sig. sig.msg_hash == h && sig.signer == a) sigs)
mark_signatures-Marked [] m known = (m, refl, Marks-refl m)
mark_signatures-Marked (sig ∷ sigs) m known =
    Marked-then m _ _ _ _ _ (mark_signer-Marked sig.msg_hash sig.signer m known.0)
      (λ m' k. mark_signatures-Marked sigs m' (All-known sigs m m' k known.1)) (λ h a. refl)

mark_all-Marked :
    (h : Hash) (signers : List Address) (m : SignersMap)
    → is_known m h ≡ true
    → Marked m (mark_all h signers m) (λ h' a. h == h' && seen signers a)
mark_all-Marked h [] m known =
    (m, refl, record { keys = λ h'. refl; signed = λ h' a. ground arith })
mark_all-Marked h (signer ∷ signers) m known =
    Marked-then m _ _ _ _ _ (mark_signer-Marked h signer m known)
      (λ m' k. mark_all-Marked h signers m' (k.keys h ∙ known)) (λ h' a. ground arith)

-- The signers brought for hashes that are known.
abbrev pub brought : (Hash → Bool) → SignersMap → Hash → Address → Bool
brought known manual h a =
    known h && any (λ (e : Hash × List Address). e.0 == h && seen e.1 a) manual

at_same :
    (known : Hash → Bool) (h h' : Hash) (b x : Bool)
    → known h ≡ b
    → (known h' && (h == h' && x)) ≡ (b && (h == h' && x))
at_same known h h' b x e = elim (Bool-cases (h == h')) [
  | inl same ↦ let p : h ≡ h' = (bytes_eq.same_iff h h').0 same in rw (← p, e)
  | inr other ↦ rw other (ground arith)
]

mark_known-Marked :
    (known : Hash → Bool) (h : Hash) (signers : List Address) (m : SignersMap)
    → ((h' : Hash) → is_known m h' ≡ known h')
    → Marked m
        (mark_known h signers m (get_key same_hash h m))
        (λ h' a. known h' && (h == h' && seen signers a))
mark_known-Marked known h signers m agree = elim (Option-cases (get_key same_hash h m)) [
  | inl absent ↦
      let unknown : known h ≡ false = sym (agree h) ∙ ap is_some absent in
      (
        m,
        rw absent,
        record {
          keys = λ h'. refl;
          signed = λ h' a. rw (at_same known h h' false (seen signers a) unknown) (ground arith);
        },
      )
  | inr (old, found) ↦
      let it : known h ≡ true = sym (agree h) ∙ ap is_some found in
      let (m', done, k) = mark_all-Marked h signers m (agree h ∙ it) in
      (
        m',
        rw found done,
        record {
          keys = k.keys;
          signed = λ h' a. rw (at_same known h h' true (seen signers a) it) (k.signed h' a);
        },
      )
]

mark_manual-Marked :
    (known : Hash → Bool) (manual m : SignersMap)
    → ((h : Hash) → is_known m h ≡ known h)
    → Marked m (mark_manual manual m) (brought known manual)
mark_manual-Marked known [] m agree =
    (m, refl, record { keys = λ h. refl; signed = λ h a. ground arith })
mark_manual-Marked known ((h, signers) ∷ manual) m agree =
    Marked-then m _ _ _ (brought known manual) _ (mark_known-Marked known h signers m agree)
      (λ m' k. mark_manual-Marked known manual m' λ h'. k.keys h' ∙ agree h') (λ h' a. ground arith)

-- The map made for the hashes, before anything is marked.
abbrev Empties : (Hash → Bool) → SignersMap → Type 0
Empties known m =
    ((h : Hash) → is_known m h ≡ known h) × ((h : Hash) (a : Address) → has_signed m h a ≡ false)

set_empty-Empties :
    (k : Hash) (known : Hash → Bool) (m : SignersMap)
    → Empties known m
    → Empties (λ h. k == h || known h) (set_key same_hash k [] m)
set_empty-Empties k known m e = (
  λ h. elim (Bool-cases (k == h)) [
    | inl same ↦
        let p : k ≡ h = (bytes_eq.same_iff k h).0 same in
        rw (← p, get_key-set_key_same {V = List Address} k [] m, beq_refl k)
    | inr other ↦ rw (get_key-set_key_other {V = List Address} k [] h m other, other) (e.0 h)
  ],
  λ h a. elim (Bool-cases (k == h)) [
    | inl same ↦
        let p : k ≡ h = (bytes_eq.same_iff k h).0 same in
        rw (← p, get_key-set_key_same {V = List Address} k [] m)
    | inr other ↦ rw (get_key-set_key_other {V = List Address} k [] h m other) (e.1 h a)
  ],
)

empty_signers-Empties :
    (hashes : List Hash) (known : Hash → Bool) (m : SignersMap)
    → Empties known m
    → Empties (λ h. listed hashes h || known h) (empty_signers hashes m)
empty_signers-Empties [] known m e = e
empty_signers-Empties (k ∷ hashes) known m e =
    let e' =
      empty_signers-Empties hashes (λ h. k == h || known h) (set_key same_hash k [] m)
        (set_empty-Empties k known m e) in
    ((λ h. ground (arith, e'.0 h)), e'.1)

All-listed :
    (sigs : List SignedMessage) (hashes : List Hash) (m : SignersMap)
    → ((h : Hash) → is_known m h ≡ listed hashes h)
    → All (λ sig. listed hashes sig.msg_hash ≡ true) sigs
    → All (λ sig. is_known m sig.msg_hash ≡ true) sigs
All-listed [] hashes m agree known = tt
All-listed (sig ∷ sigs) hashes m agree known =
    (agree sig.msg_hash ∙ known.0, All-listed sigs hashes m agree known.1)

-- makeSignersMap ends without a panic where each recorded signature is of one of the hashes. Then
-- the map says of a hash and an address that it has signed just if the hash is one of those given
-- and a signature of that address for it was recorded, or was brought along by the request.
pub make_signers_map_lem :
    (hashes : List Hash) (signatures : List SignedMessage) (manual : SignersMap)
    → All (λ sig. listed hashes sig.msg_hash ≡ true) signatures
    → (m : SignersMap) × (make_signers_map hashes signatures manual ≡ ok m)
      × ((h : Hash) (a : Address)
          → has_signed m h a ≡ (
              any (λ sig. sig.msg_hash == h && sig.signer == a) signatures
              || brought (listed hashes) manual h a))
unfolding make_signers_map
make_signers_map_lem hashes signatures manual known =
    let empty = empty_signers hashes [] in
    let (keys, none_signed) =
      empty_signers-Empties hashes (λ h. false) [] ((λ h. refl), λ h a. refl) in
    let is_listed : (h : Hash) → is_known empty h ≡ listed hashes h = λ h. keys h ∙ ground arith in
    let (m, done, k) =
      Marked-then empty _ (mark_manual manual) _ (brought (listed hashes) manual) _
        (mark_signatures-Marked signatures empty
          (All-listed signatures hashes empty is_listed known))
        (λ m' k'. mark_manual-Marked (listed hashes) manual m' λ h. k'.keys h ∙ is_listed h)
        (λ h a. refl) in
    (m, done, λ h a. k.signed h a ∙ rw (none_signed h a) refl)
