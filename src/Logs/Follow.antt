-- ===== src/Logs/Follow.antt =====
-- crates/nxr-core/src/log_broker.rs: a subscriber along a run of calls.
use mathlib.Core.List.{append-nil, append_assoc}
use nxr.Base.{
  ℕ, ◌+◌, ◌-◌, ◌≤◌, ◌≡◌, refl, sym, ap, ◌∙◌, Bool, true, false, List, [], ◌∷◌, ◌++◌, none, String,
  ltb, leb, length, drop, length-append, length-drop, drop-append_le, drop-drop, All, arith,
  if◌then◌else◌, Bool-cases, inl, inr,
}
use nxr.Base.Order.{string_ord, eqb, eqb_iff}
use nxr.Logs.Broker.{
  max_append_bytes, max_tail_bytes, LogEvent, Streams, validate_stream_id, append,
}
use nxr.Logs.Tail.{last_bytes}
use nxr.Logs.Capacity.{IsBroker, open_stream-IsBroker}
use nxr.Logs.Calls.{
  Call, opens, appends, subscribes, closes, step, run, append-IsBroker, subscribe-IsBroker,
  close-IsBroker,
}
use nxr.Logs.Listening.{Listening, open_stream-Listening}
use nxr.Logs.Delivery.{
  heard, append_other-Listening, append_same-Listening, append_long, subscribe-Listening,
  close-Listening,
}

last_bytes-append : (xs ys : List ℕ) → last_bytes (last_bytes xs ++ ys) ≡ last_bytes (xs ++ ys)
unfolding last_bytes
last_bytes-append xs ys =
    let n = length xs - max_tail_bytes in
    let inner : drop n xs ++ ys ≡ drop n (xs ++ ys) = sym (drop-append_le n xs ys (omega arith)) in
    let m = length (drop n (xs ++ ys)) - max_tail_bytes in
    let total : m + n ≡ length (xs ++ ys) - max_tail_bytes =
      omega (arith, length-drop n (xs ++ ys), length-append xs ys) in
    ap (λ (zs : List ℕ). drop (length zs - max_tail_bytes) zs) inner
    ∙ drop-drop m n (xs ++ ys)
    ∙ ap (λ (k : ℕ). drop k (xs ++ ys)) total

last_bytes_whole : (xs : List ℕ) → length xs ≤ max_tail_bytes → last_bytes xs ≡ xs
unfolding last_bytes
last_bytes_whole xs h = let none : length xs - max_tail_bytes ≡ 0 = omega (arith, h) in rw none refl

-- The calls that the subscriber `u` of `s` lives through: it stays connected while its stream is
-- appended to, and its stream is not closed.
abbrev pub Stays : String → ℕ → Call → Type 0
Stays s u (opens stream path) = Unit
Stays s u (appends connected stream bytes) = eqb stream s ≡ true → connected u ≡ true
Stays s u (subscribes id stream) = Unit
Stays s u (closes connected stream) = eqb stream s ≡ false

abbrev pub accepted : String → String → List ℕ → Bool
accepted s stream bytes = if eqb stream s then leb (length bytes) max_append_bytes else false

-- The events and the bytes of the appends to `s` that are not refused.
abbrev pub events_of : String → List Call → List LogEvent
events_of s [] = []
events_of s (opens stream path ∷ calls) = events_of s calls
events_of s (appends connected stream bytes ∷ calls) =
    let rest = events_of s calls in if accepted s stream bytes then heard bytes ++ rest else rest
events_of s (subscribes id stream ∷ calls) = events_of s calls
events_of s (closes connected stream ∷ calls) = events_of s calls

abbrev pub bytes_of : String → List Call → List ℕ
bytes_of s [] = []
bytes_of s (opens stream path ∷ calls) = bytes_of s calls
bytes_of s (appends connected stream bytes ∷ calls) =
    let rest = bytes_of s calls in if accepted s stream bytes then bytes ++ rest else rest
bytes_of s (subscribes id stream ∷ calls) = bytes_of s calls
bytes_of s (closes connected stream ∷ calls) = bytes_of s calls

module _ (s : String) (u : ℕ) (valid : validate_stream_id s ≡ none) where
  accepted-Listening :
      (connected : ℕ → Bool) (stream : String) (bytes : List ℕ) (log : List LogEvent)
      (tail : List ℕ) (streams : Streams)
      → IsBroker streams
      → accepted s stream bytes ≡ true
      → (eqb stream s ≡ true → connected u ≡ true)
      → Listening s u log tail streams
      → Listening s u
          (log ++ heard bytes)
          (last_bytes (tail ++ bytes))
          (append connected stream bytes streams).0
  accepted-Listening connected stream bytes log tail streams v a c l =
      let m : eqb stream s ≡ true = ground (arith, a) in
      let short : ltb max_append_bytes (length bytes) ≡ false = ground (arith, a, m) in
      let same : stream ≡ s = (eqb_iff stream s).0 m in
      rw same (append_same-Listening s u log tail connected bytes streams v valid short (c m) l)

  refused-Listening :
      (connected : ℕ → Bool) (stream : String) (bytes : List ℕ) (log : List LogEvent)
      (tail : List ℕ) (streams : Streams)
      → IsBroker streams
      → accepted s stream bytes ≡ false
      → Listening s u log tail streams
      → Listening s u log tail (append connected stream bytes streams).0
  refused-Listening connected stream bytes log tail streams v a l =
      elim (Bool-cases (eqb stream s)) [
        | inl m ↦
            let long : ltb max_append_bytes (length bytes) ≡ true = ground (arith, a, m) in
            rw (append_long connected stream bytes streams long) l
        | inr n ↦ append_other-Listening s u log tail connected stream bytes streams v n l
      ]

  -- A subscriber that stays connected, of a stream with a valid id that is not closed, is sent each
  -- accepted append of its stream once and in order, and the stream's tail is the end of all its bytes;
  -- the stream is not dropped for another one.
  pub run-Listening :
      (calls : List Call) (log : List LogEvent) (tail : List ℕ) (streams : Streams)
      → IsBroker streams
      → All (Stays s u) calls
      → Listening s u log tail streams
      → Listening s u
          (log ++ events_of s calls)
          (last_bytes (tail ++ bytes_of s calls))
          (run calls streams)
  run-Listening [] log tail streams v k l =
      let short : length tail ≤ max_tail_bytes =
        omega (arith, v.short s l.state l.there, ap length l.ends) in
      rw (append-nil log, append-nil tail, last_bytes_whole tail short) l
  run-Listening (opens stream path ∷ calls) log tail streams v k l =
      run-Listening calls log tail (step (opens stream path) streams)
        (open_stream-IsBroker stream path streams v) k.1
        (open_stream-Listening s u log tail stream path streams v l)
  run-Listening (appends connected stream bytes ∷ calls) log tail streams v k l =
      let after = (append connected stream bytes streams).0 in
      let v' = append-IsBroker connected stream bytes streams v in
      elim (Bool-cases (accepted s stream bytes)) [
        | inl a ↦
            let grown = last_bytes (tail ++ bytes) in
            let rest =
              run-Listening calls (log ++ heard bytes) grown after v' k.1
                (accepted-Listening connected stream bytes log tail streams v a k.0 l) in
            rw
              (
                a,
                sym (append_assoc log (heard bytes) (events_of s calls)),
                sym (append_assoc tail bytes (bytes_of s calls)),
                sym (last_bytes-append (tail ++ bytes) (bytes_of s calls)),
              )
              rest
        | inr a ↦ rw a (
            run-Listening calls log tail after v' k.1
              (refused-Listening connected stream bytes log tail streams v a l))
      ]
  run-Listening (subscribes id stream ∷ calls) log tail streams v k l =
      run-Listening calls log tail (step (subscribes id stream) streams)
        (subscribe-IsBroker id stream streams v) k.1
        (subscribe-Listening s u log tail id stream streams v l)
  run-Listening (closes connected stream ∷ calls) log tail streams v k l =
      run-Listening calls log tail (step (closes connected stream) streams)
        (close-IsBroker connected stream streams v) k.1
        (close-Listening s u log tail connected stream streams k.0 l)
