-- ===== src/Presenter/Signers.antt =====
-- presenter/presenter.go: who has signed which message, from the signatures recorded and from those
-- that a request brings along. A Go map is a list of its entries with distinct keys, in the order in
-- which they were first set; what go-ethereum computes is a parameter.
pub mod Maps
pub mod Marks
use tokenbridge_monitor.Base.{
  ℕ, ◌+◌, ◌-◌, ◌%◌, zero, suc, String, Bool, true, false, not, ◌&&◌, Option, none, some, List, [],
  ◌∷◌, ◌++◌, map, any, ◌==◌, nat_eq, bytes_eq, Bytes, length, filter_by, find_by, ltb, leb,
  get_elem?, take, drop, if◌then◌else◌,
}
use tokenbridge_monitor.Entity.{
  Address, Hash, Direction, home_to_foreign, foreign_to_home, SignedMessage, SentMessage, Log,
}
use tokenbridge_monitor.Config.{BridgeConfig}
use tokenbridge_monitor.Config.Init.{Config, get_chain_config}
use tokenbridge_monitor.Exec.{Result, ok, err, panic, Exec, lift, ◌>>=◌}
use tokenbridge_monitor.Repo.Find.{find_logs_by_ids}
use tokenbridge_monitor.Repo.Reads.{
  BridgeMessage, get_msg_hash, get_direction, get_raw_message, find_pending_messages,
  find_signed_messages, find_sent_messages,
}
use tokenbridge_monitor.Presenter.Types.{
  TxLink, UnsignedMessageInfo, UnsignedMessagesInfo, new_bridge_message_info,
}
use tokenbridge_monitor.Presenter.Events.{format_tx_link}
use tokenbridge_monitor.Presenter.Bridges.{find_active_validator_addresses, seen}

-- `m[key] = value` and `m[key]`.
module _ {K V : Type 0} (same_key : K → K → Bool) where
  abbrev pub set_key : K → V → List (K × V) → List (K × V)
  set_key k v [] = (k, v) ∷ []
  set_key k v ((k', v') ∷ m) =
      let rest = set_key k v m in if same_key k' k then (k', v) ∷ m else (k', v') ∷ rest

  abbrev value_of : Option (K × V) → Option V
  value_of none = none
  value_of (some (_, v)) = some v

  abbrev pub get_key : K → List (K × V) → Option V
  get_key k m = value_of (find_by (λ (e : K × V). same_key e.0 k) m)

abbrev pub same_hash : Hash → Hash → Bool
same_hash h h' = h == h'

abbrev pub SignersMap : Type 0
SignersMap = List (Hash × List Address)

abbrev add_signer : Hash → Address → SignersMap → Option (List Address) → Result SignersMap
add_signer h signer m none = panic
add_signer h signer m (some signers) = ok (set_key same_hash h (signer ∷ signers) m)

-- `signersMap[hash][signer] = true`; an entry of a nil map cannot be set.
abbrev pub mark_signer : Hash → Address → SignersMap → Result SignersMap
mark_signer h signer m = add_signer h signer m (get_key same_hash h m)

abbrev pub then_signers : Result SignersMap → (SignersMap → Result SignersMap) → Result SignersMap
then_signers (ok m) f = f m
then_signers (err e) f = err e
then_signers panic f = panic

abbrev pub empty_signers : List Hash → SignersMap → SignersMap
empty_signers [] m = m
empty_signers (h ∷ hs) m = empty_signers hs (set_key same_hash h [] m)

abbrev pub mark_signatures : List SignedMessage → SignersMap → Result SignersMap
mark_signatures [] m = ok m
mark_signatures (sig ∷ sigs) m =
    then_signers (mark_signer sig.msg_hash sig.signer m) (mark_signatures sigs)

abbrev pub mark_all : Hash → List Address → SignersMap → Result SignersMap
mark_all h [] m = ok m
mark_all h (signer ∷ signers) m = then_signers (mark_signer h signer m) (mark_all h signers)

-- Hashes of no pending message are passed over.
abbrev mark_known : Hash → List Address → SignersMap → Option (List Address) → Result SignersMap
mark_known h signers m none = ok m
mark_known h signers m (some _) = mark_all h signers m

abbrev pub mark_manual : SignersMap → SignersMap → Result SignersMap
mark_manual [] m = ok m
mark_manual ((h, signers) ∷ manual) m =
    then_signers (mark_known h signers m (get_key same_hash h m)) (mark_manual manual)

unfoldable pub make_signers_map : List Hash → List SignedMessage → SignersMap → Result SignersMap
make_signers_map hashes signatures manual =
    then_signers (mark_signatures signatures (empty_signers hashes [])) (mark_manual manual)

-- `signersMap[hash][signer]`
abbrev signed_in : Address → Option (List Address) → Bool
signed_in signer none = false
signed_in signer (some signers) = seen signers signer

abbrev pub has_signed : SignersMap → Hash → Address → Bool
has_signed m h signer = signed_in signer (get_key same_hash h m)

-- utils/ecdsa.go: `sig[64]` as the recovery id that go-ethereum expects.
abbrev recovery_id : Bytes → Option ℕ → Bytes
recovery_id sig none = sig
recovery_id sig (some v) = if leb 27 v then take 64 sig ++ (v - 27) ∷ drop 65 sig else sig

-- `hash` is the hash of go-ethereum's `accounts.TextHash`, `recover` the address of the public key.
module _ (text_hash : Bytes → Hash) (recover : Hash → Bytes → Result Address) where
  unfoldable pub restore_signer_address : Bytes → Bytes → Result Address
  restore_signer_address payload sig =
      recover (text_hash payload) (recovery_id sig (get_elem? sig 64))

  abbrev append_signer : Hash → Result Address → SignersMap → Result SignersMap
  append_signer h (ok signer) res = ok (
      set_key same_hash h
        (elim (get_key same_hash h res) [
          | none ↦ signer ∷ []
          | some signers ↦ signers ++ signer ∷ []
        ])
        res)
  append_signer h (err e) res = err e
  append_signer h panic res = panic

  abbrev raw_of : Option Bytes → Bytes
  raw_of none = []
  raw_of (some raw) = raw

  -- One file: its entries in the order in which Go ranges over them.
  unfoldable pub parse_file :
      List (Hash × Bytes) → List (Hash × Bytes) → SignersMap → Result SignersMap
  unfolding restore_signer_address
  parse_file messages [] res = ok res
  parse_file messages ((h, sig) ∷ sigs) res =
      then_signers
        (append_signer h (restore_signer_address (raw_of (get_key same_hash h messages)) sig) res)
        (parse_file messages sigs)

  abbrev with_file :
      Result (List (Hash × Bytes)) → (List (Hash × Bytes) → Result SignersMap) → Result SignersMap
  with_file (ok sigs) f = f sigs
  with_file (err e) f = err e
  with_file panic f = panic

  -- A file that cannot be opened or decoded is an error of the files.
  unfoldable pub parse_files :
      List (Hash × Bytes) → List (Result (List (Hash × Bytes))) → SignersMap → Result SignersMap
  unfolding parse_file
  parse_files messages [] res = ok res
  parse_files messages (file ∷ files) res =
      with_file file
        (λ sigs. then_signers (parse_file messages sigs res) (parse_files messages files))
