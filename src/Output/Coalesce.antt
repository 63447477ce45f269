-- ===== src/Output/Coalesce.antt =====
-- crates/nxr-process/src/chunk_coalesce.rs: output is held per node and stream before it is emitted. A
-- time is a number of nanoseconds, and a call is given the clock readings that it makes. The pending
-- chunks of the hash map are a list in any order.
use nxr.Base.{
  ℕ, ◌+◌, ◌-◌, Bool, true, false, ◌&&◌, ◌||◌, List, [], ◌∷◌, ◌++◌, Option, none, some, leb, ◌==◌,
  length, filter, find, if◌then◌else◌,
}

pub data PipeStream : Type 0 where
  stdout : PipeStream
  stderr : PipeStream

pub record PipeChunk : Type 0 where
  pub node : ℕ
  pub stream : PipeStream
  pub bytes : List ℕ

pub record CoalesceLimits : Type 0 where
  pub max_bytes : ℕ
  pub max_lines : ℕ
  pub max_latency : ℕ

-- `CoalesceLimits::default()`.
abbrev pub default_limits : CoalesceLimits
default_limits = record { max_bytes = 65536; max_lines = 32; max_latency = 8000000 }

pub record PendingChunk : Type 0 where
  pub node : ℕ
  pub stream : PipeStream
  pub bytes : List ℕ
  pub line_count : ℕ
  pub started : ℕ

abbrev pub Key : Type 0
Key = ℕ × PipeStream

abbrev pub same_stream : PipeStream → PipeStream → Bool
same_stream stdout stdout = true
same_stream stdout stderr = false
same_stream stderr stdout = false
same_stream stderr stderr = true

abbrev pub same_key : Key → Key → Bool
same_key k j = k.0 == j.0 && same_stream k.1 j.1

abbrev pub key_of : PendingChunk → Key
key_of entry = (entry.node, entry.stream)

unfoldable pub into_chunk : PendingChunk → PipeChunk
into_chunk entry = record { node = entry.node; stream = entry.stream; bytes = entry.bytes }

unfoldable pub count_complete_lines : List ℕ → ℕ
count_complete_lines [] = 0
count_complete_lines (byte ∷ bytes) = (if byte == 10 then 1 else 0) + count_complete_lines bytes

-- `later` is the reading of `elapsed`. A time before `started` is an elapsed time of 0.
unfoldable pub should_flush : CoalesceLimits → ℕ → PendingChunk → Bool
should_flush limits later entry =
    leb limits.max_bytes (length entry.bytes)
    || leb limits.max_lines entry.line_count
    || leb limits.max_latency (later - entry.started)

unfoldable pub lookup : Key → List PendingChunk → Option PendingChunk
lookup key pending = find (λ entry. same_key (key_of entry) key) pending

unfoldable pub without : Key → List PendingChunk → List PendingChunk
without key [] = []
without key (entry ∷ pending) =
    let rest = without key pending in if same_key (key_of entry) key then pending else entry ∷ rest

-- The entry that a read makes or extends.
unfoldable pub first_entry : PipeChunk → ℕ → PendingChunk
first_entry chunk now = record {
  node = chunk.node;
  stream = chunk.stream;
  bytes = chunk.bytes;
  line_count = count_complete_lines chunk.bytes;
  started = now;
}

unfoldable pub extend : PendingChunk → PipeChunk → PendingChunk
extend entry chunk = record entry {
  bytes = entry.bytes ++ chunk.bytes;
  line_count = entry.line_count + count_complete_lines chunk.bytes;
}

-- The entry is emitted or held again.
unfoldable pub settle :
    CoalesceLimits → ℕ → PendingChunk → List PendingChunk → List PipeChunk × List PendingChunk
settle limits later entry pending =
    if should_flush limits later entry
    then (into_chunk entry ∷ [], pending)
    else ([], entry ∷ pending)

unfoldable pub push :
    CoalesceLimits → ℕ → ℕ → PipeChunk → List PendingChunk → List PipeChunk × List PendingChunk
push limits now later chunk pending =
    let key : Key = (chunk.node, chunk.stream) in
    let rest = without key pending in
    elim (lookup key pending) [
      | none ↦ settle limits later (first_entry chunk now) rest
      | some entry ↦ settle limits later (extend entry chunk) rest
    ]

-- Each key is removed in turn, and its chunk is returned where there is one.
unfoldable pub remove_each : List Key → List PendingChunk → List PipeChunk × List PendingChunk
remove_each [] pending = ([], pending)
remove_each (key ∷ keys) pending =
    let others = remove_each keys (without key pending) in
    elim (lookup key pending) [
      | none ↦ others
      | some entry ↦ (into_chunk entry ∷ others.0, others.1)
    ]

unfoldable pub keys_of : List PendingChunk → List Key
keys_of [] = []
keys_of (entry ∷ pending) = key_of entry ∷ keys_of pending

abbrev pub is_expired : CoalesceLimits → ℕ → PendingChunk → Bool
is_expired limits now entry = leb limits.max_latency (now - entry.started)

unfoldable pub flush_expired :
    CoalesceLimits → ℕ → List PendingChunk → List PipeChunk × List PendingChunk
flush_expired limits now pending =
    remove_each (keys_of (filter (is_expired limits now) pending)) pending

unfoldable pub into_chunks : List PendingChunk → List PipeChunk
into_chunks [] = []
into_chunks (entry ∷ pending) = into_chunk entry ∷ into_chunks pending

unfoldable pub flush_all : List PendingChunk → List PipeChunk × List PendingChunk
flush_all pending = (into_chunks pending, [])
