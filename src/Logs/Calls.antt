-- ===== src/Logs/Calls.antt =====
-- crates/nxr-core/src/log_broker.rs: the bounds along a run of calls.
use nxr.Base.{
  ℕ, ◌≤◌, Bool, true, false, List, [], ◌∷◌, ◌++◌, Option, none, String, ltb, length, if◌then◌else◌,
  Bool-cases, Option-cases, inl, inr,
}
use nxr.Base.Order.{string_ord}
use nxr.Base.Map.{get}
use nxr.Logs.Broker.{
  max_tail_bytes, max_append_bytes, LogStreamState, Result, ok, err, Streams, validate_stream_id,
  contains_key, open_stream, ensure, append_to, with_stream, append, add_subscriber, subscribe,
  close,
}
use nxr.Logs.Tail.{length-last_bytes, push_tail_lem}
use nxr.Logs.Capacity.{IsBroker, change-IsBroker, remove-IsBroker, open_stream-IsBroker}

-- The calls, with the channel that a subscription makes and the subscribers that are still connected.
pub data Call : Type 0 where
  opens : (stream : String) → (path : Option String) → Call
  appends : (connected : ℕ → Bool) → (stream : String) → (bytes : List ℕ) → Call
  subscribes : (id : ℕ) → (stream : String) → Call
  closes : (connected : ℕ → Bool) → (stream : String) → Call

abbrev pub step : Call → Streams → Streams
step (opens stream path) streams = (open_stream stream path streams).0
step (appends connected stream bytes) streams = (append connected stream bytes streams).0
step (subscribes id stream) streams = (subscribe id stream streams).0
step (closes connected stream) streams = (close connected stream streams).1

abbrev pub run : List Call → Streams → Streams
run [] streams = streams
run (call ∷ calls) streams = run calls (step call streams)

ensure-IsBroker :
    (stream : String) (streams : Streams) → IsBroker streams → IsBroker (ensure stream streams).0
unfolding ensure
ensure-IsBroker stream streams v =
    elim (contains_key stream streams)
      as (λ b. IsBroker (if b then (streams, ok tt) else open_stream stream none streams).0) [
        | true ↦ v
        | false ↦ open_stream-IsBroker stream none streams v
      ]

-- `change` keeps a tail within its bound.
with_stream-IsBroker :
    {A : Type 0} (stream : String) (change : LogStreamState → LogStreamState)
    (answer : LogStreamState → A) (ensured : Streams × Result (Unit {0}))
    → ((st : LogStreamState)
        → length st.tail ≤ max_tail_bytes
        → length (change st).tail ≤ max_tail_bytes)
    → IsBroker ensured.0
    → IsBroker (with_stream stream change answer ensured).0
unfolding with_stream
with_stream-IsBroker stream change answer (streams, err e) c v = v
with_stream-IsBroker stream change answer (streams, ok _) c v =
    elim (Option-cases (get stream streams)) [
      | inl g ↦ rw (g, with_stream) v
      | inr (st, g) ↦
          rw (g, with_stream)
            (change-IsBroker stream st (change st) streams g (c st (v.short stream st g)) v)
    ]

append_to-short :
    (connected : ℕ → Bool) (bytes : List ℕ) (st : LogStreamState)
    → length st.tail ≤ max_tail_bytes
    → length (append_to connected bytes st).tail ≤ max_tail_bytes
unfolding append_to
append_to-short connected bytes st h =
    rw (push_tail_lem st.tail bytes h) (length-last_bytes (st.tail ++ bytes))

pub append-IsBroker :
    (connected : ℕ → Bool) (stream : String) (bytes : List ℕ) (streams : Streams)
    → IsBroker streams
    → IsBroker (append connected stream bytes streams).0
unfolding append
append-IsBroker connected stream bytes streams v = elim (Option-cases (validate_stream_id stream)) [
  | inr (e, h) ↦ rw (h, append) v
  | inl h ↦ elim (Bool-cases (ltb max_append_bytes (length bytes))) [
    | inl l ↦ rw (h, append) (rw l v)
    | inr l ↦
        rw (h, append)
          (rw l (
            with_stream-IsBroker stream (append_to connected bytes) (λ _. length bytes)
              (ensure stream streams) (append_to-short connected bytes)
              (ensure-IsBroker stream streams v)))
  ]
]

pub subscribe-IsBroker :
    (id : ℕ) (stream : String) (streams : Streams)
    → IsBroker streams
    → IsBroker (subscribe id stream streams).0
unfolding subscribe
subscribe-IsBroker id stream streams v = elim (Option-cases (validate_stream_id stream)) [
  | inr (e, h) ↦ rw (h, subscribe) v
  | inl h ↦
      rw (h, subscribe)
        (with_stream-IsBroker stream (add_subscriber id) (λ state. state.tail)
          (ensure stream streams) (λ st l. l) (ensure-IsBroker stream streams v))
]

pub close-IsBroker :
    (connected : ℕ → Bool) (stream : String) (streams : Streams)
    → IsBroker streams
    → IsBroker (close connected stream streams).1
unfolding close
close-IsBroker connected stream streams v = elim (Option-cases (get stream streams)) [
  | inl g ↦ rw (g, close) v
  | inr (st, g) ↦ rw (g, close) (remove-IsBroker stream streams v)
]

-- Whatever calls are made, the broker holds at most `max_streams` streams, and no tail is longer than
-- `max_tail_bytes`.
pub run-IsBroker :
    (calls : List Call) (streams : Streams) → IsBroker streams → IsBroker (run calls streams)
run-IsBroker [] streams v = v
run-IsBroker (opens stream path ∷ calls) streams v =
    run-IsBroker calls (open_stream stream path streams).0
      (open_stream-IsBroker stream path streams v)
run-IsBroker (appends connected stream bytes ∷ calls) streams v =
    run-IsBroker calls (append connected stream bytes streams).0
      (append-IsBroker connected stream bytes streams v)
run-IsBroker (subscribes id stream ∷ calls) streams v =
    run-IsBroker calls (subscribe id stream streams).0 (subscribe-IsBroker id stream streams v)
run-IsBroker (closes connected stream ∷ calls) streams v =
    run-IsBroker calls (close connected stream streams).1
      (close-IsBroker connected stream streams v)
