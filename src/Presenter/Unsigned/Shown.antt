-- ===== src/Presenter/Unsigned/Shown.antt =====
-- Which messages are to be shown as unsigned, by their signers; the handler shows these.
use tokenbridge_monitor.Base.{
  ℕ, String, ◌≡◌, refl, ap, inl, inr, Bool, true, not, ◌||◌, ◌&&◌, List, [], ◌∷◌, map, any,
  filter_by, length, ltb, All, All-imp, ◌==◌, bytes_eq, string_eq, nat_eq, Bool-cases, beq_refl,
  arith,
}
use tokenbridge_monitor.Entity.{Hash, Address}
use tokenbridge_monitor.Repo.Store.{Store}
use tokenbridge_monitor.Repo.Reads.{BridgeMessage, get_msg_hash, get_direction}
use tokenbridge_monitor.Presenter.Types.{
  TxLink, MessageView, UnsignedMessageInfo, new_bridge_message_info,
}
use tokenbridge_monitor.Presenter.Bridges.{seen}
use tokenbridge_monitor.Presenter.Signers.{SignersMap, has_signed, same_hash, set_key}
use tokenbridge_monitor.Presenter.Signers.Maps.{listed}
use tokenbridge_monitor.Presenter.Unsigned.{
  pending_hash, pending_by_hash, unsigned_messages_of, is_home_to_foreign,
}

-- A signature of the address for the hash is recorded, or was brought along.
abbrev pub signed_by : String → Store → SignersMap → Hash → Address → Bool
signed_by bridge_id s manual h a =
    any (λ sig. sig.bridge_id == bridge_id && (sig.msg_hash == h && sig.signer == a))
      s.signed_messages
    || any (λ (e : Hash × List Address). e.0 == h && seen e.1 a) manual

abbrev pub View : Type 0
View = MessageView × List Address × List Address

abbrev pub view_of : UnsignedMessageInfo → View
view_of u = (u.view, u.signers, u.missing_signers)

-- The messages with fewer signatures of validators than required, each with the validators that
-- have signed it and those that have not.
module _ (signed : Hash → Address → Bool) (validators : List Address) (required : ℕ) where
  abbrev lacks_signatures : Hash × BridgeMessage → Bool
  lacks_signatures (h, msg) = ltb (length (filter_by (signed h) validators)) required

  abbrev split_validators : Hash × BridgeMessage → View
  split_validators (h, msg) = (
    new_bridge_message_info msg,
    filter_by (signed h) validators,
    filter_by (λ v. not (signed h v)) validators,
  )

  abbrev pub unsigned_spec : List (Hash × BridgeMessage) → List View
  unsigned_spec msgs = map split_validators (filter_by lacks_signatures msgs)

filter_by-same :
    {A : Type 0} (p q : A → Bool) (xs : List A)
    → ((x : A) → p x ≡ q x)
    → filter_by p xs ≡ filter_by q xs
filter_by-same p q [] e = refl
filter_by-same p q (x ∷ xs) e = rw (e x, filter_by-same p q xs e)

abbrev pub AgreeOn :
    (m : SignersMap) (signed : Hash → Address → Bool) → Hash × BridgeMessage → Type 0
AgreeOn m signed (h, msg) = (a : Address) → has_signed m h a ≡ signed h a

pub unsigned_messages_of-spec :
    (signed : Hash → Address → Bool) (validators : List Address) (required : ℕ) (m : SignersMap)
    (links : List (Hash × TxLink)) (msgs : List (Hash × BridgeMessage))
    → All (AgreeOn m signed) msgs
    → map view_of (unsigned_messages_of validators required m links msgs)
      ≡ unsigned_spec signed validators required msgs
unsigned_messages_of-spec signed validators required m links [] agree = refl
unsigned_messages_of-spec signed validators required m links ((h, msg) ∷ msgs) (e, agree) =
    let ih = unsigned_messages_of-spec signed validators required m links msgs agree in
    let has = filter_by-same (has_signed m h) (signed h) validators e in
    let lacks =
      filter_by-same (λ v. not (has_signed m h v)) (λ v. not (signed h v)) validators
        (λ v. ap not (e v)) in
    elim (Bool-cases (ltb (length (filter_by (signed h) validators)) required)) [
      | inl few ↦ rw (has, few) (rw (lacks, ih))
      | inr enough ↦ rw (has, enough) ih
    ]

pub All-listed_self :
    {A : Type 0} (f : A → Hash) (xs : List A) → All (λ x. listed (map f xs) (f x) ≡ true) xs
All-listed_self f [] = tt
All-listed_self f (x ∷ xs) =
    (rw (beq_refl (f x)), All-imp _ _ xs (λ y h. ground (arith, h)) (All-listed_self f xs))

abbrev pub Listed : List Hash → Hash × BridgeMessage → Type 0
Listed hashes (h, msg) = listed hashes h ≡ true

All-set_key :
    (hashes : List Hash) (k : Hash) (v : BridgeMessage) (m : List (Hash × BridgeMessage))
    → listed hashes k ≡ true
    → All (Listed hashes) m
    → All (Listed hashes) (set_key same_hash k v m)
All-set_key hashes k v [] l a = (l, tt)
All-set_key hashes k v ((h, w) ∷ m) l a = elim (Bool-cases (h == k)) [
  | inl hit ↦ rw hit a
  | inr miss ↦ rw miss (a.0, All-set_key hashes k v m l a.1)
]

pub pending_by_hash-Listed :
    (hashes : List Hash) (msgs : List BridgeMessage) (m : List (Hash × BridgeMessage))
    → All (λ msg. listed hashes (pending_hash msg) ≡ true) msgs
    → All (Listed hashes) m
    → All (Listed hashes) (pending_by_hash msgs m)
pending_by_hash-Listed hashes [] m l a = a
pending_by_hash-Listed hashes (msg ∷ msgs) m l a =
    elim (Bool-cases (is_home_to_foreign (get_direction msg))) [
      | inl out ↦
          let known : listed hashes (get_msg_hash msg) ≡ true = rw out at l.0 in
          rw out (pending_by_hash-Listed hashes msgs _ l.1 (All-set_key hashes _ msg m known a))
      | inr in' ↦ rw in' (pending_by_hash-Listed hashes msgs m l.1 a)
    ]
