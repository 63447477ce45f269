-- ===== src/Logs/Delivery.antt =====
-- crates/nxr-core/src/log_broker.rs: what a connected subscriber of a stream is sent.
use mathlib.Core.List.{append-nil}
use nxr.Base.{
  ℕ, ◌≡◌, refl, ap, ◌∙◌, Bool, true, false, List, [], ◌∷◌, ◌++◌, none, some, String, ltb, ◌==◌,
  length, arith, if◌then◌else◌, Bool-cases, Option-cases, inl, inr,
}
use nxr.Base.Order.{string_ord, eqb, eqb_iff, eqb_self}
use nxr.Base.Map
use nxr.Base.Map.{get}
use nxr.Logs.Broker.{
  max_append_bytes, LogEvent, chunk, LogStreamState, ok, Streams, push_tail, validate_stream_id,
  ensure, append_to, with_stream, append, add_subscriber, subscribe, close,
}
use nxr.Logs.Tail.{last_bytes, push_tail_lem}
use nxr.Logs.Capacity.{IsBroker}
use nxr.Logs.Listening.{
  Listening, received_by, received_by-fanout, received_by-append, ensure-Listening,
  with_stream-Listening,
}

-- The event of an append, where there is one.
abbrev pub heard : List ℕ → List LogEvent
heard bytes = if length bytes == 0 then [] else chunk bytes ∷ []

heard_by :
    (connected : ℕ → Bool) (bytes : List ℕ) (st : LogStreamState) (u : ℕ) (log : List LogEvent)
    → connected u ≡ true
    → received_by u st.subscribers ≡ some log
    → received_by u (append_to connected bytes st).subscribers ≡ some (log ++ heard bytes)
unfolding append_to
heard_by connected bytes st u log c h = elim (Bool-cases (length bytes == 0)) [
  | inl e ↦ ground (arith, h, e, append-nil log)
  | inr e ↦ ground (arith, e, received_by-fanout connected (chunk bytes) u st.subscribers log c h)
]

append_to-tail :
    (connected : ℕ → Bool) (bytes : List ℕ) (st : LogStreamState)
    → (append_to connected bytes st).tail ≡ push_tail st.tail bytes
unfolding append_to
append_to-tail connected bytes st = refl

-- A chunk that is too long changes nothing.
pub append_long :
    (connected : ℕ → Bool) (stream : String) (bytes : List ℕ) (streams : Streams)
    → ltb max_append_bytes (length bytes) ≡ true
    → (append connected stream bytes streams).0 ≡ streams
unfolding append
append_long connected stream bytes streams h = elim (Option-cases (validate_stream_id stream)) [
  | inr (e, g) ↦ rw (g, append) refl
  | inl g ↦ rw (g, append) (rw h refl)
]

module _ (s : String) (u : ℕ) (log : List LogEvent) (tail : List ℕ) where
  pub append_other-Listening :
      (connected : ℕ → Bool) (stream : String) (bytes : List ℕ) (streams : Streams)
      → IsBroker streams
      → eqb stream s ≡ false
      → Listening s u log tail streams
      → Listening s u log tail (append connected stream bytes streams).0
  unfolding append
  append_other-Listening connected stream bytes streams v n l =
      elim (Option-cases (validate_stream_id stream)) [
        | inr (e, h) ↦ rw (h, append) l
        | inl h ↦ elim (Bool-cases (ltb max_append_bytes (length bytes))) [
          | inl t ↦ rw (h, append) (rw t l)
          | inr t ↦
              rw (h, append)
                (rw t (
                  with_stream-Listening s u log tail stream (append_to connected bytes)
                    (λ _. length bytes) (ensure stream streams) n
                    (ensure-Listening s u log tail stream streams v l)))
        ]
      ]

  ensure_there :
      (streams : Streams) → Listening s u log tail streams → ensure s streams ≡ (streams, ok tt)
  unfolding ensure
  ensure_there streams l = ground (arith, l.there)

  with_there :
      {A : Type 0} (change : LogStreamState → LogStreamState) (answer : LogStreamState → A)
      (streams : Streams) (l : Listening s u log tail streams)
      → with_stream s change answer (streams, ok tt)
        ≡ (Map.insert s (change l.state) streams, ok (answer l.state))
  unfolding with_stream
  with_there change answer streams l = rw (l.there, with_stream) refl

  pub append_same-Listening :
      (connected : ℕ → Bool) (bytes : List ℕ) (streams : Streams)
      → IsBroker streams
      → validate_stream_id s ≡ none
      → ltb max_append_bytes (length bytes) ≡ false
      → connected u ≡ true
      → Listening s u log tail streams
      → Listening s u
          (log ++ heard bytes)
          (last_bytes (tail ++ bytes))
          (append connected s bytes streams).0
  unfolding append
  append_same-Listening connected bytes streams v h t c l =
      let state' = append_to connected bytes l.state in
      rw (h, append)
        (rw t (
          rw (ensure_there streams l) (
            rw (with_there (append_to connected bytes) (λ _. length bytes) streams l) (record {
              state = state';
              there = ground (arith, eqb_self s, Map.get-insert s s state' streams);
              hears = heard_by connected bytes l.state u log c l.hears;
              ends = rw (append_to-tail connected bytes l.state) (
                  push_tail_lem l.state.tail bytes (v.short s l.state l.there)
                  ∙ ap (λ (xs : List ℕ). last_bytes (xs ++ bytes)) (l.ends));
            }))))

  subscribe_same-Listening :
      (id : ℕ) (streams : Streams)
      → Listening s u log tail streams
      → Listening s u log tail (subscribe id s streams).0
  unfolding subscribe
  subscribe_same-Listening id streams l =
      let state' = add_subscriber id l.state in
      elim (Option-cases (validate_stream_id s)) [
        | inr (e, h) ↦ rw (h, subscribe) l
        | inl h ↦
            rw (h, subscribe)
              (rw (ensure_there streams l) (
                rw
                  (with_there (add_subscriber id) (λ (state : LogStreamState). state.tail) streams
                    l)
                  (record {
                    state = state';
                    there = ground (arith, eqb_self s, Map.get-insert s s state' streams);
                    hears =
                        received_by-append u l.state.subscribers
                          (record { id = id; received = [] } ∷ []) log l.hears;
                    ends = l.ends;
                  })))
      ]

  pub subscribe-Listening :
      (id : ℕ) (stream : String) (streams : Streams)
      → IsBroker streams
      → Listening s u log tail streams
      → Listening s u log tail (subscribe id stream streams).0
  unfolding subscribe
  subscribe-Listening id stream streams v l = elim (Bool-cases (eqb stream s)) [
    | inl m ↦
        let same : stream ≡ s = (eqb_iff stream s).0 m in
        rw same (subscribe_same-Listening id streams l)
    | inr n ↦ elim (Option-cases (validate_stream_id stream)) [
      | inr (e, h) ↦ rw (h, subscribe) l
      | inl h ↦
          rw (h, subscribe)
            (with_stream-Listening s u log tail stream (add_subscriber id)
              (λ (state : LogStreamState). state.tail) (ensure stream streams) n
              (ensure-Listening s u log tail stream streams v l))
    ]
  ]

  pub close-Listening :
      (connected : ℕ → Bool) (stream : String) (streams : Streams)
      → eqb stream s ≡ false
      → Listening s u log tail streams
      → Listening s u log tail (close connected stream streams).1
  unfolding close
  close-Listening connected stream streams n l = elim (Option-cases (get stream streams)) [
    | inl g ↦ rw (g, close) l
    | inr (st, g) ↦
        rw (g, close)
          (record {
            state = l.state;
            there = ground (arith, n, l.there, Map.get-remove stream s streams);
            hears = l.hears;
            ends = l.ends;
          })
  ]
