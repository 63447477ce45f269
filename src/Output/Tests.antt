-- ===== src/Output/Tests.antt =====
-- crates/nxr-process/src/chunk_coalesce.rs: two reads of one stream are held, and then emitted.
use nxr.Base.{◌≡◌, refl, List, [], ◌∷◌, ◌++◌}
use nxr.Output.Coalesce.{
  stdout, stderr, PipeChunk, default_limits, into_chunk, count_complete_lines, should_flush, lookup,
  without, first_entry, extend, settle, push, remove_each, keys_of, flush_expired,
}
use nxr.Output.Bytes.{emitted, held}
use nxr.Output.Flow.{Event, read, tick, run}
use nxr.Output.Runs.{bytes_kept}

abbrev first_read : PipeChunk
first_read = record { node = 1; stream = stdout; bytes = 104 ∷ 105 ∷ [] }

abbrev second_read : PipeChunk
second_read = record { node = 1; stream = stdout; bytes = 33 ∷ 10 ∷ [] }

abbrev other_read : PipeChunk
other_read = record { node = 1; stream = stderr; bytes = 63 ∷ [] }

abbrev events : List Event
events =
    read 0 10 first_read
    ∷ read 20 30 other_read
    ∷ read 40 50 second_read
    ∷ tick 8000005
    ∷ read 8000006 8000007 first_read
    ∷ []

run-events : emitted (1, stdout) (run default_limits events []).0 ≡ 104 ∷ 105 ∷ 33 ∷ 10 ∷ []
unfolding push lookup without settle should_flush count_complete_lines first_entry extend into_chunk
    flush_expired keys_of remove_each
run-events = refl

bytes_kept_example :
    emitted (1, stdout) (run default_limits events []).0
      ++ held (1, stdout) (run default_limits events []).1
    ≡ 104 ∷ 105 ∷ 33 ∷ 10 ∷ 104 ∷ 105 ∷ []
bytes_kept_example = bytes_kept default_limits events [] (1, stdout) tt
