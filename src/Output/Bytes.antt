-- ===== src/Output/Bytes.antt =====
-- crates/nxr-process/src/chunk_coalesce.rs: no byte of a stream is lost, doubled or moved.
use nxr.Base.{
  ℕ, ◌≡◌, refl, Bool, true, false, List, [], ◌∷◌, ◌++◌, none, some, arith, if◌then◌else◌,
  Bool-cases, inl, inr, any,
}
use nxr.Output.Coalesce.{
  PipeStream, stdout, stderr, PipeChunk, PendingChunk, Key, same_stream, same_key, key_of, lookup,
  without,
}

-- The bytes of one key, in order.
abbrev pub emitted : Key → List PipeChunk → List ℕ
emitted key [] = []
emitted key (chunk ∷ chunks) =
    let rest = emitted key chunks in
    if same_key (chunk.node, chunk.stream) key then chunk.bytes ++ rest else rest

abbrev pub held : Key → List PendingChunk → List ℕ
held key [] = []
held key (entry ∷ pending) =
    let rest = held key pending in if same_key (key_of entry) key then entry.bytes ++ rest else rest

abbrev pub held_by : Key → List PendingChunk → Bool
held_by key pending = any (λ entry. same_key (key_of entry) key) pending

-- No key stands twice.
abbrev pub Unique : List PendingChunk → Type 0
Unique [] = Unit
Unique (entry ∷ pending) = (held_by (key_of entry) pending ≡ false) × Unique pending

same_stream_symm : (a b : PipeStream) → same_stream a b ≡ same_stream b a
same_stream_symm stdout stdout = refl
same_stream_symm stdout stderr = refl
same_stream_symm stderr stdout = refl
same_stream_symm stderr stderr = refl

same_stream_trans :
    (a b c : PipeStream) → same_stream a b ≡ true → same_stream a c ≡ same_stream b c
same_stream_trans stdout stdout c h = refl
same_stream_trans stdout stderr c h = cc
same_stream_trans stderr stdout c h = cc
same_stream_trans stderr stderr c h = refl

same_stream_self : (a : PipeStream) → same_stream a a ≡ true
same_stream_self stdout = refl
same_stream_self stderr = refl

pub same_key_self : (k : Key) → same_key k k ≡ true
same_key_self k = ground (arith, same_stream_self k.1)

-- Two keys that are the same are the same as any third.
pub same_key_trans : (k j i : Key) → same_key k j ≡ true → same_key k i ≡ same_key j i
same_key_trans k j i h = ground (arith, h, same_stream_trans k.1 j.1 i.1)

pub same_key_symm : (k j : Key) → same_key k j ≡ same_key j k
same_key_symm k j = ground (arith, same_stream_symm k.1 j.1)

pub held-absent : (key : Key) (p : List PendingChunk) → held_by key p ≡ false → held key p ≡ []
held-absent key [] h = refl
held-absent key (e ∷ p) h = ground (arith, h, held-absent key p)

pub lookup-none : (k : Key) (p : List PendingChunk) → lookup k p ≡ none → held_by k p ≡ false
unfolding lookup
lookup-none k [] h = refl
lookup-none k (e ∷ p) h = ground (arith, h, lookup-none k p)

pub without-absent : (k : Key) (p : List PendingChunk) → held_by k p ≡ false → without k p ≡ p
unfolding without
without-absent k [] h = refl
without-absent k (e ∷ p) h = ground (arith, h, without-absent k p)

pub lookup-same :
    (k : Key) (p : List PendingChunk) (e : PendingChunk)
    → lookup k p ≡ some e
    → same_key (key_of e) k ≡ true
unfolding lookup
lookup-same k [] e h = cc
lookup-same k (x ∷ p) e h = ground (arith, h, lookup-same k p e)

-- What a removed entry held comes before what is left of its key.
pub held-without :
    (key k : Key) (p : List PendingChunk) (e : PendingChunk)
    → lookup k p ≡ some e
    → held key p ≡ (
        if same_key (key_of e) key
        then e.bytes ++ held key (without k p)
        else held key (without k p))
unfolding lookup without
held-without key k [] e h = cc
held-without key k (x ∷ p) e h = elim (Bool-cases (same_key (key_of x) k)) [
  | inl s ↦ ground (arith, h, s)
  | inr s ↦ ground (
    arith,
    h,
    s,
    held-without key k p e,
    lookup-same k p e,
    same_key_trans (key_of x) key k,
    same_key_trans (key_of e) key k,
  )
]

pub held_by-without :
    (j k : Key) (p : List PendingChunk) → held_by j p ≡ false → held_by j (without k p) ≡ false
unfolding without
held_by-without j k [] h = refl
held_by-without j k (x ∷ p) h = ground (arith, h, held_by-without j k p)

pub without-Unique : (k : Key) (p : List PendingChunk) → Unique p → Unique (without k p)
unfolding without
without-Unique k [] u = tt
without-Unique k (x ∷ p) u =
    ground (arith, u.0, u.1, held_by-without (key_of x) k p, without-Unique k p u.1)

pub held_by-same :
    (k j : Key) (p : List PendingChunk) → same_key k j ≡ true → held_by k p ≡ held_by j p
held_by-same k j [] h = refl
held_by-same k j (x ∷ p) h = ground (
  arith,
  h,
  held_by-same k j p h,
  same_key_trans k j (key_of x),
  same_key_symm (key_of x) k,
  same_key_symm (key_of x) j,
)

pub without-gone : (k : Key) (p : List PendingChunk) → Unique p → held_by k (without k p) ≡ false
unfolding without
without-gone k [] u = refl
without-gone k (x ∷ p) u = ground (arith, u.0, held_by-same (key_of x) k p, without-gone k p u.1)
