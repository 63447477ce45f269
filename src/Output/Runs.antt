-- ===== src/Output/Runs.antt =====
-- crates/nxr-process/src/chunk_coalesce.rs: what a run of the coalescer emits.
use mathlib.Core.List.{append-nil, append_assoc}
use nxr.Base.{
  ℕ, ◌≡◌, refl, sym, ap, ◌∙◌, List, [], ◌∷◌, ◌++◌, filter, arith, Option-cases, inl, inr,
}
use nxr.Output.Coalesce.{
  CoalesceLimits, PendingChunk, Key, into_chunk, lookup, without, remove_each, keys_of, is_expired,
  flush_expired, into_chunks, flush_all,
}
use nxr.Output.Bytes.{
  emitted, held, Unique, lookup-none, without-absent, held-without, without-Unique,
}
use nxr.Output.Flow.{Event, read, tick, drain, step, run, reads, emitted-append, push-held}

remove_each-held :
    (keys : List Key) (p : List PendingChunk) (key : Key)
    → Unique p
    → (emitted key (remove_each keys p).0 ++ held key (remove_each keys p).1 ≡ held key p)
      × Unique (remove_each keys p).1
unfolding remove_each into_chunk
remove_each-held [] p key u = (refl, u)
remove_each-held (k ∷ keys) p key u =
    let rest = remove_each-held keys (without k p) key (without-Unique k p u) in
    let others = remove_each keys (without k p) in
    elim (Option-cases (lookup k p)) [
      | inl h ↦ (
        ground (arith, h, rest.0, without-absent k p (lookup-none k p h)),
        ground (arith, h, rest.1),
      )
      | inr (e, h) ↦ (
        ground (
          arith,
          h,
          rest.0,
          held-without key k p e h,
          append_assoc e.bytes (emitted key others.0) (held key others.1),
        ),
        ground (arith, h, rest.1),
      )
    ]

into_chunks-held : (p : List PendingChunk) (key : Key) → emitted key (into_chunks p) ≡ held key p
unfolding into_chunks into_chunk
into_chunks-held [] key = refl
into_chunks-held (e ∷ p) key = ground (arith, into_chunks-held p key)

-- One event keeps the bytes of each key.
step-held :
    (limits : CoalesceLimits) (event : Event) (p : List PendingChunk) (key : Key)
    → Unique p
    → (emitted key (step limits event p).0 ++ held key (step limits event p).1
        ≡ held key p ++ emitted key (reads (event ∷ [])))
      × Unique (step limits event p).1
unfolding flush_expired flush_all
step-held limits (read now later c) p key u = push-held limits now later c p key u
step-held limits (tick now) p key u =
    let removed = remove_each-held (keys_of (filter (is_expired limits now) p)) p key u in
    (removed.0 ∙ sym (append-nil (held key p)), removed.1)
step-held limits drain p key u = (ap (λ (xs : List ℕ). xs ++ []) (into_chunks-held p key), tt)

reads-cons :
    (key : Key) (event : Event) (events : List Event)
    → emitted key (reads (event ∷ events))
      ≡ emitted key (reads (event ∷ [])) ++ emitted key (reads events)
reads-cons key (read now later c) events =
    ground (arith, append_assoc c.bytes [] (emitted key (reads events)))
reads-cons key (tick now) events = refl
reads-cons key drain events = refl

-- Where no key has two pending chunks: for each node and stream, the bytes that a run emits, followed by those still held, are those that
-- were held before, followed by those read, in the same order.
pub bytes_kept :
    (limits : CoalesceLimits) (events : List Event) (p : List PendingChunk) (key : Key)
    → Unique p
    → emitted key (run limits events p).0 ++ held key (run limits events p).1
      ≡ held key p ++ emitted key (reads events)
bytes_kept limits [] p key u = sym (append-nil (held key p))
bytes_kept limits (event ∷ events) p key u =
    let first = step limits event p in
    let rest = run limits events first.1 in
    let kept = step-held limits event p key u in
    let later = bytes_kept limits events first.1 key kept.1 in
    ap (λ (xs : List ℕ). xs ++ held key rest.1) (emitted-append key first.0 rest.0)
    ∙ append_assoc (emitted key first.0) (emitted key rest.0) (held key rest.1)
    ∙ ap (λ (xs : List ℕ). emitted key first.0 ++ xs) later
    ∙ sym (append_assoc (emitted key first.0) (held key first.1) (emitted key (reads events)))
    ∙ ap (λ (xs : List ℕ). xs ++ emitted key (reads events)) kept.0
    ∙ append_assoc (held key p) (emitted key (reads (event ∷ []))) (emitted key (reads events))
    ∙ ap (λ (xs : List ℕ). held key p ++ xs) (sym (reads-cons key event events))
