-- ===== src/Presenter/Unsigned/Outgoing.antt =====
-- Which messages the handler of unsigned messages considers: one for each hash of the messages from
-- home to foreign. `pendingMessages` is a map, so the last message with a hash is the one that counts.
use tokenbridge_monitor.Base.{
  ◌≡◌, refl, ap, ◌∙◌, sym, inl, inr, Bool, true, false, ◌&&◌, Option, none, some, List, [], ◌∷◌,
  ◌==◌, bytes_eq, Bool-cases, beq_sym, if◌then◌else◌,
}
use tokenbridge_monitor.Entity.{Hash, Direction, home_to_foreign, foreign_to_home}
use tokenbridge_monitor.Repo.Reads.{BridgeMessage, amb, erc, get_msg_hash, get_direction}
use tokenbridge_monitor.Presenter.Signers.{same_hash, set_key}
use tokenbridge_monitor.Presenter.Unsigned.{pending_by_hash, is_home_to_foreign}

abbrev goes_out : Direction → Bool
goes_out home_to_foreign = true
goes_out foreign_to_home = false

abbrev pub outgoing : BridgeMessage → Bool
outgoing (amb m) = goes_out m.direction
outgoing (erc m) = goes_out m.direction

abbrev or_first : Option BridgeMessage → Option BridgeMessage → Option BridgeMessage
or_first none o = o
or_first (some m) o = some m

-- The last message from home to foreign with the hash.
abbrev pub last_outgoing : Hash → List BridgeMessage → Option BridgeMessage
last_outgoing h [] = none
last_outgoing h (m ∷ ms) =
    or_first (last_outgoing h ms) (if outgoing m && get_msg_hash m == h then some m else none)

abbrev pub message_at : Hash → List (Hash × BridgeMessage) → Option BridgeMessage
message_at h [] = none
message_at h ((k, m) ∷ entries) = if k == h then some m else message_at h entries

abbrev pub OncePerHash : List (Hash × BridgeMessage) → Type 0
OncePerHash [] = Unit
OncePerHash ((h, m) ∷ entries) = (message_at h entries ≡ none) × OncePerHash entries

-- One entry for each hash, and in it the last message from home to foreign with that hash.
abbrev pub LastOfEach : List BridgeMessage → List (Hash × BridgeMessage) → Type 0
LastOfEach msgs entries =
    OncePerHash entries × ((h : Hash) → message_at h entries ≡ last_outgoing h msgs)

module _ (k : Hash) (v : BridgeMessage) where
  message_at-set_key :
      (h : Hash) (m : List (Hash × BridgeMessage))
      → message_at h (set_key same_hash k v m) ≡ (if k == h then some v else message_at h m)
  message_at-set_key h [] = refl
  message_at-set_key h ((k', v') ∷ m) = elim (Bool-cases (k' == k)) [
    | inl hit ↦
        let e : k' ≡ k = (bytes_eq.same_iff k' k).0 hit in
        elim (Bool-cases (k == h)) [
          | inl it ↦ rw (hit, e, it) refl
          | inr other ↦ rw (hit, e, other) refl
        ]
    | inr miss ↦ elim (Bool-cases (k' == h)) [
      | inl it ↦
          let e : k' ≡ h = (bytes_eq.same_iff k' h).0 it in
          let other : (k == h) ≡ false = ap (λ x. k == x) (sym e) ∙ beq_sym k k' ∙ miss in
          rw (miss, it, other) refl
      | inr other ↦ rw (miss, other) (message_at-set_key h m)
    ]
  ]

  OncePerHash-set_key :
      (m : List (Hash × BridgeMessage)) → OncePerHash m → OncePerHash (set_key same_hash k v m)
  OncePerHash-set_key [] o = (refl, tt)
  OncePerHash-set_key ((k', v') ∷ m) o = elim (Bool-cases (k' == k)) [
    | inl hit ↦ rw hit o
    | inr miss ↦
        rw miss (message_at-set_key k' m ∙ rw (beq_sym k k', miss) o.0, OncePerHash-set_key m o.1)
  ]

same_direction : (d : Direction) → is_home_to_foreign d ≡ goes_out d
same_direction home_to_foreign = refl
same_direction foreign_to_home = refl

same_outgoing : (msg : BridgeMessage) → is_home_to_foreign (get_direction msg) ≡ outgoing msg
same_outgoing (amb m) = same_direction m.direction
same_outgoing (erc m) = same_direction m.direction

or_first_assoc :
    (a b c : Option BridgeMessage) → or_first a (or_first b c) ≡ or_first (or_first a b) c
or_first_assoc none b c = refl
or_first_assoc (some m) b c = refl

or_first-if :
    (q : Bool) (m : BridgeMessage) (o : Option BridgeMessage)
    → (if q then some m else o) ≡ or_first (if q then some m else none) o
or_first-if true m o = refl
or_first-if false m o = refl

message_at-pending_by_hash :
    (h : Hash) (msgs : List BridgeMessage) (m : List (Hash × BridgeMessage))
    → message_at h (pending_by_hash msgs m) ≡ or_first (last_outgoing h msgs) (message_at h m)
message_at-pending_by_hash h [] m = refl
message_at-pending_by_hash h (msg ∷ msgs) m = elim (Bool-cases (outgoing msg)) [
  | inl out ↦
      rw (same_outgoing msg, out)
        (message_at-pending_by_hash h msgs (set_key same_hash (get_msg_hash msg) msg m)
          ∙ ap (or_first (last_outgoing h msgs))
              (message_at-set_key (get_msg_hash msg) msg h m ∙ or_first-if _ msg (message_at h m))
          ∙ or_first_assoc (last_outgoing h msgs) _ (message_at h m))
  | inr back ↦
      rw (same_outgoing msg, back)
        (message_at-pending_by_hash h msgs m
          ∙ or_first_assoc (last_outgoing h msgs) none (message_at h m))
]

OncePerHash-pending_by_hash :
    (msgs : List BridgeMessage) (m : List (Hash × BridgeMessage))
    → OncePerHash m
    → OncePerHash (pending_by_hash msgs m)
OncePerHash-pending_by_hash [] m o = o
OncePerHash-pending_by_hash (msg ∷ msgs) m o =
    elim (Bool-cases (is_home_to_foreign (get_direction msg))) [
      | inl out ↦
          rw out
            (OncePerHash-pending_by_hash msgs _ (OncePerHash-set_key (get_msg_hash msg) msg m o))
      | inr back ↦ rw back (OncePerHash-pending_by_hash msgs m o)
    ]

or_first-none : (o : Option BridgeMessage) → or_first o none ≡ o
or_first-none none = refl
or_first-none (some m) = refl

pub pending_by_hash-LastOfEach :
    (msgs : List BridgeMessage) → LastOfEach msgs (pending_by_hash msgs [])
pending_by_hash-LastOfEach msgs = (
  OncePerHash-pending_by_hash msgs [] tt,
  λ h. message_at-pending_by_hash h msgs [] ∙ or_first-none (last_outgoing h msgs),
)
