-- ===== src/Contract/Abi.antt =====
-- contract/abi/abi.go. The ABI itself, read from JSON, and the decoding of values are go-ethereum's:
-- parameters. Go ranges over the events of an ABI in no fixed order; here they come as a list.
use tokenbridge_monitor.Base.{
  String, Bool, Option, none, some, List, [], ◌∷◌, ◌++◌, ◌&&◌, Bytes, ◌==◌, nat_eq, string_eq,
  bytes_eq, ltb, length, any, filter_by, find_by, if◌then◌else◌,
}
use tokenbridge_monitor.Entity.{Hash, Log, topics}
use tokenbridge_monitor.Exec.{Result, ok, err, panic, invalid_event}
use tokenbridge_monitor.Monitor.Handlers.{EventData}

pub record Argument : Type 0 where
  pub name : String
  pub is_indexed : Bool

-- `print` is `event.String()`, which names the event and its arguments.
pub record Event : Type 0 where
  pub print : String
  pub id : Hash
  pub inputs : List Argument

-- `UnpackIntoMap` and `ParseTopicsIntoMap`.
pub record Abi : Type 0 where
  pub events : List Event
  pub unpack_into_map : List Argument → Bytes → Result EventData
  pub parse_topics_into_map : List Argument → List Hash → Result EventData

unfoldable pub all_events : Abi → String → Bool
all_events abi name = any (λ e. e.print == name) abi.events

abbrev pub indexed : List Argument → List Argument
indexed args = filter_by (λ a. a.is_indexed) args

-- `topics[0]` of no topics is a panic, which the caller rules out.
unfoldable pub find_matching_event_abi : Abi → List Hash → Option Event
find_matching_event_abi abi [] = none
find_matching_event_abi abi (t ∷ ts) =
    find_by (λ e. e.id == t && length (indexed e.inputs) == length ts) abi.events

-- What is decoded later is written over what is there: it stands first.
abbrev with_topics : EventData → Result EventData → Result EventData
with_topics values (ok more) = ok (more ++ values)
with_topics values (err e) = err e
with_topics values panic = panic

abbrev then_topics : Result EventData → Result EventData → Result EventData
then_topics (ok values) more = with_topics values more
then_topics (err e) more = err e
then_topics panic more = panic

unfoldable pub decode_log_data : Abi → Event → List Hash → Bytes → Result EventData
decode_log_data abi event [] payload = panic
decode_log_data abi event (t ∷ ts) payload =
    then_topics
      (if ltb (length (indexed event.inputs)) (length event.inputs)
        then abi.unpack_into_map event.inputs payload
        else ok [])
      (abi.parse_topics_into_map (indexed event.inputs) ts)

abbrev named : String → Result EventData → Result (String × EventData)
named name (ok values) = ok (name, values)
named name (err e) = err e
named name panic = panic

abbrev decode_event : Abi → Option Event → List Hash → Bytes → Result (String × EventData)
decode_event abi none ts payload = ok ("", [])
decode_event abi (some event) ts payload = named event.print (decode_log_data abi event ts payload)

abbrev parse_topics : Abi → List Hash → Bytes → Result (String × EventData)
parse_topics abi [] payload = err invalid_event
parse_topics abi (t ∷ ts) payload =
    decode_event abi (find_matching_event_abi abi (t ∷ ts)) (t ∷ ts) payload

-- An event that the ABI does not have is no error: its name is empty.
unfoldable pub parse_log : Abi → Log → Result (String × EventData)
unfolding find_matching_event_abi decode_log_data
parse_log abi log = parse_topics abi (topics log) log.payload
