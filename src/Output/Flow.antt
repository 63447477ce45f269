-- ===== src/Output/Flow.antt =====
-- crates/nxr-process/src/chunk_coalesce.rs: the coalescer along a run of calls.
use mathlib.Core.List.{append-nil, append_assoc}
use nxr.Base.{
  ℕ, ◌≡◌, refl, ◌∙◌, false, List, [], ◌∷◌, ◌++◌, none, some, arith, if◌then◌else◌, Bool-cases,
  Option-cases, inl, inr,
}
use nxr.Output.Coalesce.{
  PipeChunk, CoalesceLimits, PendingChunk, Key, same_key, key_of, into_chunk, should_flush, lookup,
  without, first_entry, extend, settle, push, flush_expired, flush_all,
}
use nxr.Output.Bytes.{
  emitted, held, held_by, Unique, same_key_trans, held-absent, lookup-none, without-absent,
  lookup-same, held-without, without-Unique, held_by-same, without-gone,
}

-- The calls, with the clock readings that each makes.
pub data Event : Type 0 where
  read : (now later : ℕ) → (chunk : PipeChunk) → Event
  tick : (now : ℕ) → Event
  drain : Event

abbrev pub step : CoalesceLimits → Event → List PendingChunk → List PipeChunk × List PendingChunk
step limits (read now later chunk) p = push limits now later chunk p
step limits (tick now) p = flush_expired limits now p
step limits drain p = flush_all p

abbrev pub run :
    CoalesceLimits → List Event → List PendingChunk → List PipeChunk × List PendingChunk
run limits [] p = ([], p)
run limits (event ∷ events) p =
    let first = step limits event p in
    let rest = run limits events first.1 in (first.0 ++ rest.0, rest.1)

-- The chunks that are read along a run.
abbrev pub reads : List Event → List PipeChunk
reads [] = []
reads (read now later chunk ∷ events) = chunk ∷ reads events
reads (tick now ∷ events) = reads events
reads (drain ∷ events) = reads events

pub emitted-append :
    (key : Key) (xs ys : List PipeChunk) → emitted key (xs ++ ys) ≡ emitted key xs ++ emitted key ys
emitted-append key [] ys = refl
emitted-append key (x ∷ xs) ys =
    ground (arith, emitted-append key xs ys, append_assoc x.bytes (emitted key xs) (emitted key ys))

settle-held :
    (limits : CoalesceLimits) (later : ℕ) (e : PendingChunk) (p : List PendingChunk) (key : Key)
    → emitted key (settle limits later e p).0 ++ held key (settle limits later e p).1
      ≡ held key (e ∷ p)
unfolding settle into_chunk
settle-held limits later e p key = elim (Bool-cases (should_flush limits later e)) [
  | inl h ↦ ground (arith, h, append-nil e.bytes)
  | inr h ↦ ground (arith, h)
]

settle-Unique :
    (limits : CoalesceLimits) (later : ℕ) (e : PendingChunk) (p : List PendingChunk)
    → held_by (key_of e) p ≡ false
    → Unique p
    → Unique (settle limits later e p).1
unfolding settle
settle-Unique limits later e p h u = ground (arith, h, u)

push-first :
    (limits : CoalesceLimits) (now later : ℕ) (c : PipeChunk) (p : List PendingChunk)
    → lookup (c.node, c.stream) p ≡ none
    → push limits now later c p
      ≡ settle limits later (first_entry c now) (without (c.node, c.stream) p)
unfolding push
push-first limits now later c p h = ground (arith, h)

push-more :
    (limits : CoalesceLimits) (now later : ℕ) (c : PipeChunk) (p : List PendingChunk)
    (e : PendingChunk)
    → lookup (c.node, c.stream) p ≡ some e
    → push limits now later c p ≡ settle limits later (extend e c) (without (c.node, c.stream) p)
unfolding push
push-more limits now later c p e h = ground (arith, h)

-- A new entry comes after the nothing that its key held, and an extended one after what it held.
first_order :
    (k key : Key) (c : PipeChunk) (p : List PendingChunk)
    → held_by k p ≡ false
    → (if same_key k key then c.bytes ++ held key (without k p) else held key (without k p))
      ≡ held key p ++ (if same_key k key then c.bytes ++ [] else [])
first_order k key c p h = rw (without-absent k p h) (elim (Bool-cases (same_key k key)) [
  | inl s ↦
      let none_held : held key p ≡ [] =
        held-absent key p (ground (arith, h, held_by-same k key p s)) in
      ground (arith, s, none_held)
  | inr s ↦ ground (arith, s, append-nil (held key p))
])

more_order :
    (k key : Key) (c : PipeChunk) (p : List PendingChunk) (e : PendingChunk)
    → lookup k p ≡ some e
    → held_by k (without k p) ≡ false
    → (if same_key (key_of e) key
        then (e.bytes ++ c.bytes) ++ held key (without k p)
        else held key (without k p))
      ≡ held key p ++ (if same_key k key then c.bytes ++ [] else [])
more_order k key c p e h gone =
    let alike : same_key (key_of e) key ≡ same_key k key =
      same_key_trans (key_of e) k key (lookup-same k p e h) in
    let removed = held-without key k p e h in
    elim (Bool-cases (same_key k key)) [
      | inl s ↦
          let none_held : held key (without k p) ≡ [] =
            held-absent key (without k p)
              (ground (arith, gone, held_by-same k key (without k p) s)) in
          ground (
            arith,
            s,
            alike,
            removed,
            none_held,
            append-nil e.bytes,
            append-nil c.bytes,
            append-nil (e.bytes ++ c.bytes),
          )
      | inr s ↦ ground (arith, s, alike, removed, append-nil (held key p))
    ]

pub push-held :
    (limits : CoalesceLimits) (now later : ℕ) (c : PipeChunk) (p : List PendingChunk) (key : Key)
    → Unique p
    → (emitted key (push limits now later c p).0 ++ held key (push limits now later c p).1
        ≡ held key p ++ emitted key (c ∷ []))
      × Unique (push limits now later c p).1
unfolding first_entry extend
push-held limits now later c p key u =
    let k : Key = (c.node, c.stream) in
    let rest = without k p in
    let gone = without-gone k p u in
    let u' = without-Unique k p u in
    elim (Option-cases (lookup k p)) [
      | inl h ↦
          let absent = lookup-none k p h in
          rw (push-first limits now later c p h) (
            settle-held limits later (first_entry c now) rest key ∙ first_order k key c p absent,
            settle-Unique limits later (first_entry c now) rest gone u',
          )
      | inr (e, h) ↦ rw (push-more limits now later c p e h) (
        settle-held limits later (extend e c) rest key ∙ more_order k key c p e h gone,
        settle-Unique limits later (extend e c) rest
            (ground (arith, gone, held_by-same (key_of e) k rest (lookup-same k p e h))) u',
      )
    ]
