-- ===== src/Logs/RoundTrip.antt =====
-- crates/nxr-core/src/log_broker.rs: decoding undoes encoding.
use nxr.Base.{ℕ, ◌+◌, ◌*◌, ◌/◌, ◌%◌, ◌<◌, ◌≡◌, refl, false, List, [], ◌∷◌, ◌==◌, length, All, arith}
use nxr.Logs.Base64.{
  ok, table, pad, symbol, base64_encode, val, padded_val, count_pads, unpack, decode_chunk,
  decode_chunks, base64_decode,
}

val-table : (i : ℕ) → i < 64 → val (table i) ≡ ok i
unfolding val table
val-table i h = ground arith

table-ne-pad : (i : ℕ) → i < 64 → (table i == pad) ≡ false
unfolding table
table-ne-pad i h = ground arith

val-symbol : (n shift : ℕ) → val (symbol n shift) ≡ ok ((n / shift) % 64)
val-symbol n shift = val-table ((n / shift) % 64) (omega arith)

symbol-ne-pad : (n shift : ℕ) → (symbol n shift == pad) ≡ false
symbol-ne-pad n shift = table-ne-pad ((n / shift) % 64) (omega arith)

padded_val-symbol : (n shift : ℕ) → padded_val (symbol n shift) ≡ ok ((n / shift) % 64)
unfolding padded_val
padded_val-symbol n shift = rw (symbol-ne-pad n shift) (val-symbol n shift)

-- Four groups of six bits are the 24 bits.
sextets :
    (n : ℕ)
    → n < 16777216
    → ((n / 262144) % 64) * 262144 + ((n / 4096) % 64) * 4096 + ((n / 64) % 64) * 64 + (n / 1) % 64
      ≡ n
sextets n h = omega arith

chunk_three :
    (a b c : ℕ)
    → a < 256
    → b < 256
    → c < 256
    → (let n = a * 65536 + b * 256 + c in
        decode_chunk (symbol n 262144) (symbol n 4096) (symbol n 64) (symbol n 1))
      ≡ ok (a ∷ b ∷ c ∷ [])
unfolding decode_chunk count_pads unpack
chunk_three a b c ha hb hc =
    let n = a * 65536 + b * 256 + c in
    rw
      (
        val-symbol n 262144,
        val-symbol n 4096,
        padded_val-symbol n 64,
        padded_val-symbol n 1,
        symbol-ne-pad n 262144,
        symbol-ne-pad n 4096,
        symbol-ne-pad n 64,
        symbol-ne-pad n 1,
        sextets n (omega arith),
      )
      (cc (
        let e : n / 65536 % 256 ≡ a = omega (arith) in e,
        let e : n / 256 % 256 ≡ b = omega (arith) in e,
        let e : n % 256 ≡ c = omega (arith) in e,
      ))

-- Three groups hold sixteen bits and two zeros, two hold eight bits and four zeros.
chunk_two :
    (a b : ℕ)
    → a < 256
    → b < 256
    → (let n = a * 65536 + b * 256 in
        decode_chunk (symbol n 262144) (symbol n 4096) (symbol n 64) pad)
      ≡ ok (a ∷ b ∷ [])
unfolding decode_chunk count_pads unpack padded_val
chunk_two a b ha hb =
    let n = a * 65536 + b * 256 in
    let whole : ((n / 262144) % 64) * 262144 + ((n / 4096) % 64) * 4096 + ((n / 64) % 64) * 64 + 0
        ≡ n =
      omega arith in
    rw
      (
        val-symbol n 262144,
        val-symbol n 4096,
        symbol-ne-pad n 64,
        val-symbol n 64,
        symbol-ne-pad n 262144,
        symbol-ne-pad n 4096,
        whole,
      )
      (cc (
        let e : n / 65536 % 256 ≡ a = omega (arith) in e,
        let e : n / 256 % 256 ≡ b = omega (arith) in e,
      ))

chunk_one :
    (a : ℕ)
    → a < 256
    → (let n = a * 65536 in decode_chunk (symbol n 262144) (symbol n 4096) pad pad) ≡ ok (a ∷ [])
unfolding decode_chunk count_pads unpack padded_val
chunk_one a ha =
    let n = a * 65536 in
    let whole : ((n / 262144) % 64) * 262144 + ((n / 4096) % 64) * 4096 + 0 * 64 + 0 ≡ n =
      omega arith in
    rw (val-symbol n 262144, val-symbol n 4096, symbol-ne-pad n 262144, symbol-ne-pad n 4096, whole)
      (cc (let e : n / 65536 % 256 ≡ a = omega (arith) in e))

chunks-encode :
    (bytes : List ℕ) → All (λ b. b < 256) bytes → decode_chunks (base64_encode bytes) ≡ ok bytes
unfolding decode_chunks base64_encode
chunks-encode [] h = refl
chunks-encode (a ∷ []) h = rw (chunk_one a h.0) refl
chunks-encode (a ∷ b ∷ []) h = rw (chunk_two a b h.0 h.1.0) refl
chunks-encode (a ∷ b ∷ c ∷ rest) h =
    rw (chunk_three a b c h.0 h.1.0 h.1.1.0, chunks-encode rest h.1.1.1) refl

-- The encoding is four bytes for each three bytes that are begun.
pub length-base64_encode :
    (bytes : List ℕ) → length (base64_encode bytes) ≡ (length bytes + 2) / 3 * 4
unfolding base64_encode
length-base64_encode [] = omega arith
length-base64_encode (a ∷ []) = omega arith
length-base64_encode (a ∷ b ∷ []) = omega arith
length-base64_encode (a ∷ b ∷ c ∷ rest) = omega (arith, length-base64_encode rest)

-- Decoding an encoding gives the bytes back.
pub base64_decode-base64_encode :
    (bytes : List ℕ) → All (λ b. b < 256) bytes → base64_decode (base64_encode bytes) ≡ ok bytes
unfolding base64_decode
base64_decode-base64_encode bytes h =
    let whole : length (base64_encode bytes) % 4 ≡ 0 = omega (arith, length-base64_encode bytes) in
    ground (arith, whole, chunks-encode bytes h)
