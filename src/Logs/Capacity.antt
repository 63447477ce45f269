-- ===== src/Logs/Capacity.antt =====
-- crates/nxr-core/src/log_broker.rs: the bounds on the streams and their tails.
use nxr.Base.{
  ◌≤◌, ◌<◌, ◌≡◌, refl, [], ◌∷◌, Option, some, String, ltb, length, arith, Bool-cases, Option-cases,
  List-cases, ◌⊎◌, inl, inr, ltb→lt,
}
use nxr.Base.Order.{string_ord, eqb_iff}
use nxr.Base.Map
use nxr.Base.Map.{get}
use nxr.Base.Map.Size.{length-insert, length-insert_present, length-remove, length-remove-lt}
use nxr.Logs.Broker.{
  max_tail_bytes, max_streams, LogStreamState, BrokerError, Result, ok, err, Streams,
  validate_stream_id, find_idle, fresh_stream, make_room, add_stream, open_stream,
}

-- At most `max_streams` streams, each with a tail of at most `max_tail_bytes` bytes.
pub record IsBroker (streams : Streams) : Type 0 where
  pub sorted : Map.IsSorted streams
  pub few : length streams ≤ max_streams
  pub short :
      (stream : String) (state : LogStreamState)
      → get stream streams ≡ some state
      → length state.tail ≤ max_tail_bytes

pub Result-cases {ℓ} :
    {A : Type ℓ} (r : Result A) → ((a : A) × (r ≡ ok a)) ⊎ ((e : BrokerError) × (r ≡ err e))
Result-cases (ok a) = inl (a, refl)
Result-cases (err e) = inr (e, refl)

-- The stream that is dropped has no subscribers.
pub find_idle-get :
    (streams : Streams) (key : String)
    → Map.IsSorted streams
    → find_idle streams ≡ some key
    → (state : LogStreamState) × (get key streams ≡ some state) × (state.subscribers ≡ [])
unfolding find_idle get
find_idle-get [] key s h = absurd (ground (arith, h))
find_idle-get ((k, state) ∷ streams) key s h = elim (List-cases state.subscribers) [
  | inl e ↦ (state, ground (arith, h, e, eqb_iff key k), e)
  | inr (x, xs, e) ↦
      let (st, g, i) = find_idle-get streams key s.1 (ground (arith, h, e)) in
      (st, ground (arith, g, eqb_iff key k, Map.Before-get k streams s.0), i)
]

pub remove-IsBroker :
    (key : String) (streams : Streams) → IsBroker streams → IsBroker (Map.remove key streams)
remove-IsBroker key streams v = record {
  sorted = Map.remove-IsSorted key streams v.sorted;
  few = omega (arith, v.few, length-remove key streams);
  short =
      λ stream state h. v.short stream state (ground (arith, h, Map.get-remove key stream streams));
}

-- A stream is changed in place.
pub change-IsBroker :
    (stream : String) (state state' : LogStreamState) (streams : Streams)
    → get stream streams ≡ some state
    → length state'.tail ≤ max_tail_bytes
    → IsBroker streams
    → IsBroker (Map.insert stream state' streams)
change-IsBroker stream state state' streams g t v = record {
  sorted = Map.insert-IsSorted stream state' streams v.sorted;
  few = omega (arith, v.few, length-insert_present stream state' state streams v.sorted g);
  short = λ other st h.
      ground (arith, h, t, v.short other st, Map.get-insert stream other state' streams);
}

pub make_room-IsBroker :
    (streams roomy : Streams)
    → make_room streams ≡ ok roomy
    → IsBroker streams
    → IsBroker roomy × (length roomy < max_streams)
unfolding make_room
make_room-IsBroker streams roomy h v = elim (Bool-cases (ltb (length streams) max_streams)) [
  | inl e ↦
      let same : roomy ≡ streams = ground (arith, h, e) in
      rw same (v, ltb→lt (length streams) max_streams e)
  | inr e ↦ elim (Option-cases (find_idle streams)) [
    | inl f ↦ absurd (ground (arith, h, e, f))
    | inr (key, f) ↦
        let same : roomy ≡ Map.remove key streams = ground (arith, h, e, f) in
        let (st, g, i) = find_idle-get streams key v.sorted f in
        rw same
          (remove-IsBroker key streams v, omega (arith, v.few, length-remove-lt key st streams g))
  ]
]

add_stream-IsBroker :
    (stream : String) (path : Option String) (streams : Streams)
    → IsBroker streams
    → IsBroker (add_stream stream path streams).0
unfolding add_stream
add_stream-IsBroker stream path streams v = elim (Result-cases (make_room streams)) [
  | inr (e, h) ↦ rw (h, add_stream) v
  | inl (roomy, h) ↦
      let (v', room) = make_room-IsBroker streams roomy h v in
      rw (h, add_stream)
        (record {
          sorted = Map.insert-IsSorted stream (fresh_stream path) roomy v'.sorted;
          few = omega (arith, room, length-insert stream (fresh_stream path) roomy);
          short = λ other st g.
              ground (
                arith,
                g,
                v'.short other st,
                Map.get-insert stream other (fresh_stream path) roomy,
              );
        })
]

pub open_stream-IsBroker :
    (stream : String) (path : Option String) (streams : Streams)
    → IsBroker streams
    → IsBroker (open_stream stream path streams).0
unfolding open_stream
open_stream-IsBroker stream path streams v = elim (Option-cases (validate_stream_id stream)) [
  | inr (e, h) ↦ rw (h, open_stream) v
  | inl h ↦ elim (Option-cases (get stream streams)) [
    | inl g ↦ rw (h, open_stream) (rw (g) (add_stream-IsBroker stream path streams v))
    | inr (st, g) ↦ elim (Option-cases path) [
      | inl p ↦ rw (h, open_stream) (rw (g) (rw (p) v))
      | inr (q, p) ↦
          rw (h, open_stream)
            (rw (g) (
              rw (p) (
                change-IsBroker stream st (record st { path = some q }) streams g
                  (v.short stream st g) v)))
    ]
  ]
]
