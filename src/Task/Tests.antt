-- ===== src/Task/Tests.antt =====
-- crates/nxr-task/src/memory.rs and duration.rs: quantities read and printed.
use Prim.Native.String.{◌++◌ as str_append}
use Prim.Native.Nat.{min}
use nxr.Base.{◌*◌, ◌≡◌, refl, arith}
use nxr.Base.Order.{string_ord}
use nxr.Base.Texts.{is_whitespace, trim, split_digits, number_from}
use nxr.Base.Decimal.{decimal}
use nxr.Task.Scheduler.State.{format_memory_bytes}
use nxr.Task.Memory.{ok, err, zero_quantity, multiplier, scale, parse_parts, parse_memory}
use nxr.Task.Memory.RoundTrip.{parse_memory-format_memory_bytes}
use nxr.Task.Duration
use nxr.Task.Duration.{minutes, millis, unit_of, split_number_unit, parse_amount, parse_duration}
use nxr.Task.Duration.Suffix.{suffix, worth, longest, parse_duration_lem}

half_gib : parse_memory " 512MiB " ≡ ok 536870912
unfolding parse_memory parse_parts scale multiplier trim split_digits number_from is_whitespace
half_gib = refl

no_memory : parse_memory "0KB" ≡ err zero_quantity
unfolding parse_memory parse_parts scale multiplier trim split_digits number_from is_whitespace
no_memory = refl

parse_memory-format_memory_bytes_example : parse_memory (format_memory_bytes 1536) ≡ ok 1536
parse_memory-format_memory_bytes_example =
    parse_memory-format_memory_bytes 1536 (omega arith) (omega arith)

ten_minutes : parse_duration "10 min" ≡ Duration.ok 600000
unfolding parse_duration parse_amount split_number_unit unit_of millis trim split_digits number_from
    is_whitespace
ten_minutes = refl

parse_duration_lem_example :
    parse_duration (str_append (decimal 90) (suffix minutes))
    ≡ Duration.ok (min (90 * worth minutes) longest)
parse_duration_lem_example = parse_duration_lem 90 minutes (omega arith)
