-- ===== src/Logs/Listening.antt =====
-- crates/nxr-core/src/log_broker.rs: a subscribed stream is not dropped for another one.
use nxr.Base.{
  ℕ, ◌≡◌, ◌≢◌, refl, ap, ◌∙◌, Bool, true, false, List, [], ◌∷◌, ◌++◌, Option, none, some, String,
  ltb, ◌==◌, length, arith, if◌then◌else◌, Bool-cases, Option-cases, inl, inr,
}
use nxr.Base.Order.{string_ord, eqb, eqb_iff, eqb_self, eqb_symm}
use nxr.Base.Map
use nxr.Base.Map.{get}
use nxr.Logs.Broker.{
  max_streams, LogEvent, Subscriber, LogStreamState, Result, ok, err, Streams, fanout,
  validate_stream_id, contains_key, find_idle, fresh_stream, make_room, add_stream, open_stream,
  ensure, with_stream,
}
use nxr.Logs.Capacity.{IsBroker, Result-cases, find_idle-get}

-- The events that the subscriber `u` of a stream has been sent.
abbrev pub received_by : ℕ → List Subscriber → Option (List LogEvent)
received_by u [] = none
received_by u (s ∷ subscribers) = if s.id == u then some s.received else received_by u subscribers

pub received_by-fanout :
    (connected : ℕ → Bool) (event : LogEvent) (u : ℕ) (subs : List Subscriber) (log : List LogEvent)
    → connected u ≡ true
    → received_by u subs ≡ some log
    → received_by u (fanout connected event subs) ≡ some (log ++ event ∷ [])
unfolding fanout
received_by-fanout connected event u [] log c h = cc
received_by-fanout connected event u (s ∷ subs) log c h = elim (Bool-cases (s.id == u)) [
  | inl e ↦
      let same : s.id ≡ u = ground (arith, e) in
      let on : connected s.id ≡ true = rw same c in ground (arith, h, e, on)
  | inr e ↦ ground (arith, h, e, received_by-fanout connected event u subs log c)
]

pub received_by-append :
    (u : ℕ) (subs more : List Subscriber) (log : List LogEvent)
    → received_by u subs ≡ some log
    → received_by u (subs ++ more) ≡ some log
received_by-append u [] more log h = cc
received_by-append u (s ∷ subs) more log h = ground (arith, h, received_by-append u subs more log)

-- The subscriber `u` of the stream `s` has been sent `log`, and the stream's tail is `tail`.
pub record Listening (s : String) (u : ℕ) (log : List LogEvent) (tail : List ℕ) (streams : Streams)
    : Type 0 where
  pub state : LogStreamState
  pub there : get s streams ≡ some state
  pub hears : received_by u state.subscribers ≡ some log
  pub ends : state.tail ≡ tail

module _ (s : String) (u : ℕ) (log : List LogEvent) (tail : List ℕ) where
  busy : (st : LogStreamState) → received_by u st.subscribers ≡ some log → st.subscribers ≢ []
  busy st h e = ground (arith, h, e)

  pub make_room-Listening :
      (streams roomy : Streams)
      → IsBroker streams
      → make_room streams ≡ ok roomy
      → Listening s u log tail streams
      → Listening s u log tail roomy
  unfolding make_room
  make_room-Listening streams roomy v h l = elim (Bool-cases (ltb (length streams) max_streams)) [
    | inl e ↦ let same : roomy ≡ streams = ground (arith, h, e) in rw same l
    | inr e ↦ elim (Option-cases (find_idle streams)) [
      | inl f ↦ absurd (ground (arith, h, e, f))
      | inr (key, f) ↦
          let same : roomy ≡ Map.remove key streams = ground (arith, h, e, f) in
          let (st, g, i) = find_idle-get streams key v.sorted f in
          let other : eqb key s ≡ false = ground (arith, g, i, l.there, l.hears, eqb_iff key s) in
          rw same (record {
            state = l.state;
            there = ground (arith, other, l.there, Map.get-remove key s streams);
            hears = l.hears;
            ends = l.ends;
          })
    ]
  ]

  pub insert_other-Listening :
      (other : String) (st : LogStreamState) (streams : Streams)
      → eqb other s ≡ false
      → Listening s u log tail streams
      → Listening s u log tail (Map.insert other st streams)
  insert_other-Listening other st streams n l = record {
    state = l.state;
    there =
        ground
          (arith, n, l.there, eqb_iff s other, eqb_self other, Map.get-insert other s st streams);
    hears = l.hears;
    ends = l.ends;
  }

  -- A stream's state is replaced by one with the same subscribers and tail.
  pub replace-Listening :
      (stream : String) (st st' : LogStreamState) (streams : Streams)
      → get stream streams ≡ some st
      → received_by u st'.subscribers ≡ received_by u st.subscribers
      → st'.tail ≡ st.tail
      → Listening s u log tail streams
      → Listening s u log tail (Map.insert stream st' streams)
  replace-Listening stream st st' streams g r e l = elim (Bool-cases (eqb stream s)) [
    | inr n ↦ insert_other-Listening stream st' streams n l
    | inl m ↦
        let same : st ≡ l.state = ground (arith, g, l.there, m, eqb_iff stream s) in
        record {
          state = st';
          there = ground (arith, m, eqb_symm s stream, Map.get-insert stream s st' streams);
          hears = r ∙ ap (λ (x : LogStreamState). received_by u x.subscribers) same ∙ l.hears;
          ends = e ∙ ap (λ (x : LogStreamState). x.tail) same ∙ l.ends;
        }
  ]

  pub add_stream-Listening :
      (stream : String) (path : Option String) (streams : Streams)
      → eqb stream s ≡ false
      → IsBroker streams
      → Listening s u log tail streams
      → Listening s u log tail (add_stream stream path streams).0
  unfolding add_stream
  add_stream-Listening stream path streams n v l = elim (Result-cases (make_room streams)) [
    | inr (e, h) ↦ rw (h, add_stream) l
    | inl (roomy, h) ↦
        rw (h, add_stream)
          (insert_other-Listening stream (fresh_stream path) roomy n
            (make_room-Listening streams roomy v h l))
  ]

  pub open_stream-Listening :
      (stream : String) (path : Option String) (streams : Streams)
      → IsBroker streams
      → Listening s u log tail streams
      → Listening s u log tail (open_stream stream path streams).0
  unfolding open_stream
  open_stream-Listening stream path streams v l = elim (Option-cases (validate_stream_id stream)) [
    | inr (e, h) ↦ rw (h, open_stream) l
    | inl h ↦ elim (Option-cases (get stream streams)) [
      | inl g ↦
          let other : eqb stream s ≡ false = ground (arith, g, l.there, eqb_iff stream s) in
          rw (h, open_stream) (rw (g) (add_stream-Listening stream path streams other v l))
      | inr (st, g) ↦ elim (Option-cases path) [
        | inl p ↦ rw (h, open_stream) (rw (g) (rw (p) l))
        | inr (q, p) ↦
            rw (h, open_stream)
              (rw (g) (
                rw (p) (
                  replace-Listening stream st (record st { path = some q }) streams g refl refl l)))
      ]
    ]
  ]

  -- A call that concerns another stream.
  pub ensure-Listening :
      (stream : String) (streams : Streams)
      → IsBroker streams
      → Listening s u log tail streams
      → Listening s u log tail (ensure stream streams).0
  unfolding ensure
  ensure-Listening stream streams v l =
      elim (contains_key stream streams)
        as (λ b.
          Listening s u log tail
            (if b then (streams, ok tt) else open_stream stream none streams).0) [
              | true ↦ l
              | false ↦ open_stream-Listening stream none streams v l
            ]

  pub with_stream-Listening :
      {A : Type 0} (stream : String) (change : LogStreamState → LogStreamState)
      (answer : LogStreamState → A) (ensured : Streams × Result (Unit {0}))
      → eqb stream s ≡ false
      → Listening s u log tail ensured.0
      → Listening s u log tail (with_stream stream change answer ensured).0
  unfolding with_stream
  with_stream-Listening stream change answer (streams, err e) n l = l
  with_stream-Listening stream change answer (streams, ok _) n l =
      elim (Option-cases (get stream streams)) [
        | inl g ↦ rw (g, with_stream) l
        | inr (st, g) ↦ rw (g, with_stream) (insert_other-Listening stream (change st) streams n l)
      ]
