-- ===== src/Logs/Base64.antt =====
-- crates/nxr-core/src/log_broker.rs: the base64 of log bytes. A text is the list of its bytes, and the
-- shifts and masks are written as division and remainder.
use nxr.Base.{
  ℕ, ◌+◌, ◌-◌, ◌*◌, ◌/◌, ◌%◌, ◌&&◌, List, [], ◌∷◌, ◌++◌, ltb, leb, ◌==◌, length, if◌then◌else◌,
}

pub data DecodeError : Type 0 where
  invalid_length : DecodeError
  invalid_byte : (byte : ℕ) → DecodeError

pub data Decoded {ℓ} (A : Type ℓ) : Type ℓ where
  ok : A → Decoded A
  err : DecodeError → Decoded A

infixl 5 ◌>>=◌
abbrev pub ◌>>=◌ {ℓ κ} : {A : Type ℓ} {B : Type κ} → Decoded A → (A → Decoded B) → Decoded B
ok a >>= f = f a
err e >>= f = err e

-- `TABLE[i]`: upper case, lower case, digits, `+` and `/`.
unfoldable pub table : ℕ → ℕ
table i =
    if ltb i 26
    then i + 65
    else if ltb i 52
    then i + 71
    else if ltb i 62
    then i - 4
    else if i == 62
    then 43
    else 47

abbrev pub pad : ℕ
pad = 61

-- The four symbols of the 24 bits `n`.
abbrev pub symbol : ℕ → ℕ → ℕ
symbol n shift = table ((n / shift) % 64)

unfoldable pub base64_encode : List ℕ → List ℕ
base64_encode [] = []
base64_encode (b0 ∷ []) = let n = b0 * 65536 in symbol n 262144 ∷ symbol n 4096 ∷ pad ∷ pad ∷ []
base64_encode (b0 ∷ b1 ∷ []) =
    let n = b0 * 65536 + b1 * 256 in symbol n 262144 ∷ symbol n 4096 ∷ symbol n 64 ∷ pad ∷ []
base64_encode (b0 ∷ b1 ∷ b2 ∷ rest) =
    let n = b0 * 65536 + b1 * 256 + b2 in
    symbol n 262144 ∷ symbol n 4096 ∷ symbol n 64 ∷ symbol n 1 ∷ base64_encode rest

unfoldable pub val : ℕ → Decoded ℕ
val c =
    if leb 65 c && leb c 90
    then ok (c - 65)
    else if leb 97 c && leb c 122
    then ok (c - 97 + 26)
    else if leb 48 c && leb c 57
    then ok (c - 48 + 52)
    else if c == 43
    then ok 62
    else if c == 47
    then ok 63
    else err (invalid_byte c)

unfoldable pub padded_val : ℕ → Decoded ℕ
padded_val c = if c == pad then ok 0 else val c

unfoldable pub count_pads : List ℕ → ℕ
count_pads [] = 0
count_pads (b ∷ bytes) = (if b == pad then 1 else 0) + count_pads bytes

-- The bytes of four symbols: all of them, or one or two fewer for the padding.
unfoldable pub unpack : ℕ → ℕ → List ℕ
unpack pads n =
    let first = (n / 65536) % 256 in
    let second = (n / 256) % 256 in
    let third = n % 256 in
    if ltb pads 1
    then first ∷ second ∷ third ∷ []
    else if ltb pads 2
    then first ∷ second ∷ []
    else first ∷ []

unfoldable pub decode_chunk : ℕ → ℕ → ℕ → ℕ → Decoded (List ℕ)
decode_chunk c0 c1 c2 c3 = do
  n0 ← val c0
  n1 ← val c1
  n2 ← padded_val c2
  n3 ← padded_val c3
  ok (unpack (count_pads (c0 ∷ c1 ∷ c2 ∷ c3 ∷ [])) (n0 * 262144 + n1 * 4096 + n2 * 64 + n3))

-- A chunk that is not whole does not occur: the length is checked before.
unfoldable pub decode_chunks : List ℕ → Decoded (List ℕ)
decode_chunks (c0 ∷ c1 ∷ c2 ∷ c3 ∷ rest) = do
  bytes ← decode_chunk c0 c1 c2 c3
  others ← decode_chunks rest
  ok (bytes ++ others)
decode_chunks _ = ok []

unfoldable pub base64_decode : List ℕ → Decoded (List ℕ)
base64_decode bytes = if length bytes % 4 == 0 then decode_chunks bytes else err invalid_length
