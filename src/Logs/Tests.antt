-- ===== src/Logs/Tests.antt =====
-- crates/nxr-core/src/log_broker.rs: bytes encoded and decoded, and a subscriber of one stream.
use Prim.Native.Char.{code}
use nxr.Base.{
  ℕ, zero, suc, ◌+◌, ◌≤◌, ◌≡◌, refl, true, List, [], ◌∷◌, none, some, String, length, arith,
}
use nxr.Base.Order.{string_ord}
use nxr.Base.Texts.{size_in_bytes, has_char}
use nxr.Base.Map
use nxr.Base.Map.{get}
use nxr.Logs.Base64.{ok, table, base64_encode, base64_decode}
use nxr.Logs.RoundTrip.{base64_decode-base64_encode}
use nxr.Logs.Broker.{
  max_tail_bytes, chunk, LogStreamState, Streams, push_tail, validate_stream_id, make_room,
  add_stream, open_stream, ensure, with_stream, subscribe,
}
use nxr.Logs.Tail.{last_bytes, push_tail_lem}
use nxr.Logs.Capacity.{IsBroker}
use nxr.Logs.Calls.{Call, opens, appends, subscribes, run, run-IsBroker}
use nxr.Logs.Listening.{Listening}
use nxr.Logs.Follow.{run-Listening}

codes : String → List ℕ
codes String.[] = []
codes (String.◌∷◌ c s) = code c ∷ codes s

indices : ℕ → ℕ → List ℕ
indices n zero = []
indices n (suc k) = n ∷ indices (n + 1) k

table_of : List ℕ → List ℕ
table_of [] = []
table_of (i ∷ is) = table i ∷ table_of is

whole_table :
    table_of (indices 0 64)
    ≡ codes "ABCDEFGHIJKLMNOPQRSTUVWXYZabcdefghijklmnopqrstuvwxyz0123456789+/"
unfolding table_of indices codes table
whole_table = refl

encoded : base64_encode (codes "log!") ≡ codes "bG9nIQ=="
unfolding base64_encode codes table
encoded = refl

abbrev bytes : List ℕ
bytes = 108 ∷ 111 ∷ 103 ∷ 33 ∷ []

base64_decode-base64_encode_example : base64_decode (base64_encode bytes) ≡ ok bytes
base64_decode-base64_encode_example =
    base64_decode-base64_encode bytes (omega arith, (omega arith, (omega arith, (omega arith, tt))))

push_tail_lem_example : push_tail (1 ∷ []) (2 ∷ []) ≡ last_bytes (1 ∷ 2 ∷ [])
push_tail_lem_example = push_tail_lem (1 ∷ []) (2 ∷ []) (omega arith)

abbrev start : Streams
start =
    ("web", record { path = none; tail = []; subscribers = record { id = 7; received = [] } ∷ [] })
    ∷ []

started : (subscribe 7 "web" []).0 ≡ start
unfolding subscribe validate_stream_id size_in_bytes has_char ensure open_stream add_stream
    make_room with_stream get Map.insert
started = refl

start_short :
    (stream : String) (state : LogStreamState)
    → get stream start ≡ some state
    → length state.tail ≤ max_tail_bytes
unfolding get
start_short stream state h = ground (arith, h)

start-IsBroker : IsBroker start
start-IsBroker = record {
  sorted = (tt, tt);
  few = omega arith;
  short = λ stream state h. start_short stream state h;
}

abbrev calls : List Call
calls =
    appends (λ _. true) "web" (104 ∷ 105 ∷ [])
    ∷ opens "db" (some "/tmp/db.log")
    ∷ subscribes 8 "web"
    ∷ appends (λ _. true) "web" (33 ∷ [])
    ∷ []

run-IsBroker_example : IsBroker (run calls start)
run-IsBroker_example = run-IsBroker calls start start-IsBroker

web_valid : validate_stream_id "web" ≡ none
unfolding validate_stream_id size_in_bytes has_char
web_valid = refl

start-Listening : Listening "web" 7 [] [] start
unfolding get
start-Listening = record {
  state = record { path = none; tail = []; subscribers = record { id = 7; received = [] } ∷ [] };
  there = refl;
  hears = refl;
  ends = refl;
}

run-Listening_example :
    Listening "web" 7
      (chunk (104 ∷ 105 ∷ []) ∷ chunk (33 ∷ []) ∷ [])
      (last_bytes (104 ∷ 105 ∷ 33 ∷ []))
      (run calls start)
run-Listening_example =
    run-Listening "web" 7 web_valid calls [] [] start start-IsBroker
      ((λ _. refl), (tt, (tt, ((λ _. refl), tt)))) start-Listening
