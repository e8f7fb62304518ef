-- ===== src/Tests/Storing.antt =====
-- A second message for the small bridge, and one that is there already.
use tokenbridge_monitor.Base.{◌≡◌, refl, [], ◌∷◌, find_by, bytes_eq, string_eq}
use tokenbridge_monitor.Entity.{Message}
use tokenbridge_monitor.Repo.Store.{Store}
use tokenbridge_monitor.Repo.Table.{insert_row}
use tokenbridge_monitor.Repo.Growing.{insert_into}
use tokenbridge_monitor.Repo.Ensure.{ensure_message}
use tokenbridge_monitor.Repo.Reads.{get_message_by_msg_hash}
use tokenbridge_monitor.Repo.Messages.{
  MessageMap, Represents, has_key, put_if_absent, ensure_message-Represents,
}
use tokenbridge_monitor.Exec.{ok, query, continue, statement}
use tokenbridge_monitor.Exec.Retryable.{clean}
use tokenbridge_monitor.Tests.Presenting.{pending_store, some_message}

abbrev second_message : Message
second_message = record some_message { msg_hash = 7 ∷ [] }

abbrev other_payload : Message
other_payload = record some_message { payload = 1 ∷ [] }

abbrev both_stored : Store
both_stored = record pending_store { messages = some_message ∷ second_message ∷ [] }

second_test : ensure_message second_message (clean pending_store) ≡ (ok tt, clean both_stored)
unfolding ensure_message statement continue insert_into insert_row
second_test = refl

kept_test : ensure_message other_payload (clean pending_store) ≡ (ok tt, clean pending_store)
unfolding ensure_message statement continue insert_into insert_row
kept_test = refl

abbrev some_entries : MessageMap
some_entries b h = find_by (has_key b h) (some_message ∷ [])

some_entries-Represents : Represents pending_store some_entries
unfolding get_message_by_msg_hash query continue
some_entries-Represents b h = refl

ensure_message-Represents_example :
    (t : Store) × (ensure_message second_message (clean pending_store) ≡ (ok tt, clean t))
    × Represents t (put_if_absent second_message some_entries)
ensure_message-Represents_example =
    ensure_message-Represents second_message pending_store some_entries some_entries-Represents
