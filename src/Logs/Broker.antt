-- ===== src/Logs/Broker.antt =====
-- crates/nxr-core/src/log_broker.rs: the streams of the broker. A subscriber's channel is the events that
-- it was sent, and whether a send succeeds is given by `connected`. A path is a text.
use nxr.Base.{
  ℕ, ◌-◌, Bool, true, false, ◌||◌, List, [], ◌∷◌, ◌++◌, Option, none, some, String, ltb, leb, ◌==◌,
  length, drop, if◌then◌else◌,
}
use nxr.Base.Order.{string_ord}
use nxr.Base.Words.{u64_max, saturating_add}
use nxr.Base.Texts.{size_in_bytes, has_char}
use nxr.Base.Map
use nxr.Base.Map.{get}

abbrev pub max_tail_bytes : ℕ
max_tail_bytes = 262144

abbrev pub max_append_bytes : ℕ
max_append_bytes = 65536

abbrev pub max_streams : ℕ
max_streams = 64

pub data LogEvent : Type 0 where
  chunk : (bytes : List ℕ) → LogEvent
  closed : LogEvent

pub record Subscriber : Type 0 where
  pub id : ℕ
  pub received : List LogEvent

pub record LogStreamState : Type 0 where
  pub path : Option String
  pub tail : List ℕ
  pub subscribers : List Subscriber

-- The messages of the source, by what they say; `missing` is the panic of `expect`.
pub data BrokerError : Type 0 where
  id_length : BrokerError
  id_control : BrokerError
  at_capacity : BrokerError
  chunk_too_long : (bytes : ℕ) → BrokerError
  missing : BrokerError

pub data Result {ℓ} (A : Type ℓ) : Type ℓ where
  ok : A → Result A
  err : BrokerError → Result A

abbrev pub Streams : Type 0
Streams = List (String × LogStreamState)

unfoldable pub push_tail : List ℕ → List ℕ → List ℕ
push_tail tail bytes =
    let overflow = saturating_add u64_max (length tail) (length bytes) - max_tail_bytes in
    let kept =
      if ltb 0 overflow
      then drop (if leb overflow (length tail) then overflow else length tail) tail
      else tail in
    if length bytes == 0
    then tail
    else if leb max_tail_bytes (length bytes)
    then drop (length bytes - max_tail_bytes) bytes
    else kept ++ bytes

unfoldable pub fanout : (ℕ → Bool) → LogEvent → List Subscriber → List Subscriber
fanout connected event [] = []
fanout connected event (s ∷ subscribers) =
    let rest = fanout connected event subscribers in
    if connected s.id then record s { received = s.received ++ event ∷ [] } ∷ rest else rest

unfoldable pub validate_stream_id : String → Option BrokerError
validate_stream_id stream =
    if size_in_bytes stream == 0 || ltb 256 (size_in_bytes stream)
    then some id_length
    else if has_char 0 stream || has_char 10 stream
    then some id_control
    else none

abbrev pub contains_key : String → Streams → Bool
contains_key stream streams = elim (get stream streams) [ none ↦ false | some _ ↦ true ]

-- The first stream that nobody subscribes to.
unfoldable pub find_idle : Streams → Option String
find_idle [] = none
find_idle ((key, state) ∷ streams) =
    let rest = find_idle streams in elim state.subscribers [ [] ↦ some key | _ ∷ _ ↦ rest ]

abbrev pub fresh_stream : Option String → LogStreamState
fresh_stream path = record { path = path; tail = []; subscribers = [] }

-- A full broker drops an idle stream for a new one.
unfoldable pub make_room : Streams → Result Streams
make_room streams =
    if ltb (length streams) max_streams then ok streams else elim (find_idle streams) [
      | none ↦ err at_capacity
      | some key ↦ ok (Map.remove key streams)
    ]

unfoldable pub add_stream : String → Option String → Streams → Streams × Result (Unit {0})
add_stream stream path streams = elim (make_room streams) [
  | err e ↦ (streams, err e)
  | ok roomy ↦ (Map.insert stream (fresh_stream path) roomy, ok tt)
]

unfoldable pub open_stream : String → Option String → Streams → Streams × Result (Unit {0})
open_stream stream path streams = elim (validate_stream_id stream) [
  | some e ↦ (streams, err e)
  | none ↦ elim (get stream streams) [
    | none ↦ add_stream stream path streams
    | some existing ↦ elim path [
      | none ↦ (streams, ok tt)
      | some p ↦ (Map.insert stream (record existing { path = some p }) streams, ok tt)
    ]
  ]
]

-- A stream that is not there yet is opened.
unfoldable pub ensure : String → Streams → Streams × Result (Unit {0})
ensure stream streams =
    if contains_key stream streams then (streams, ok tt) else open_stream stream none streams

unfoldable pub append_to : (ℕ → Bool) → List ℕ → LogStreamState → LogStreamState
append_to connected bytes state = record state {
  tail = push_tail state.tail bytes;
  subscribers =
      if length bytes == 0
      then state.subscribers
      else fanout connected (chunk bytes) state.subscribers;
}

-- What a call does to the stream that it has made sure of.
unfoldable pub with_stream {ℓ} :
    {A : Type ℓ}
    → String
    → (LogStreamState → LogStreamState)
    → (LogStreamState → A)
    → Streams × Result (Unit {0})
    → Streams × Result A
with_stream stream change answer (streams, err e) = (streams, err e)
with_stream stream change answer (streams, ok _) = elim (get stream streams) [
  | none ↦ (streams, err missing)
  | some state ↦ (Map.insert stream (change state) streams, ok (answer state))
]

unfoldable pub append : (ℕ → Bool) → String → List ℕ → Streams → Streams × Result ℕ
append connected stream bytes streams = elim (validate_stream_id stream) [
  | some e ↦ (streams, err e)
  | none ↦
      if ltb max_append_bytes (length bytes)
      then (streams, err (chunk_too_long (length bytes)))
      else with_stream stream (append_to connected bytes) (λ _. length bytes)
          (ensure stream streams)
]

abbrev pub add_subscriber : ℕ → LogStreamState → LogStreamState
add_subscriber id state = record state {
  subscribers = state.subscribers ++ record { id = id; received = [] } ∷ [];
}

-- `id` names the new channel. The answer is the tail.
unfoldable pub subscribe : ℕ → String → Streams → Streams × Result (List ℕ)
subscribe id stream streams = elim (validate_stream_id stream) [
  | some e ↦ (streams, err e)
  | none ↦ with_stream stream (add_subscriber id) (λ state. state.tail) (ensure stream streams)
]

unfoldable pub path_for : String → Streams → Option String
path_for stream streams = elim (get stream streams) [ none ↦ none | some state ↦ state.path ]

unfoldable pub stream_count : Streams → ℕ
stream_count streams = length streams

-- The subscribers that the closed stream had, with their last event, and the other streams.
unfoldable pub close : (ℕ → Bool) → String → Streams → List Subscriber × Streams
close connected stream streams = elim (get stream streams) [
  | none ↦ ([], streams)
  | some state ↦ (fanout connected closed state.subscribers, Map.remove stream streams)
]
