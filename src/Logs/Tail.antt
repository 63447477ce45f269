-- ===== src/Logs/Tail.antt =====
-- crates/nxr-core/src/log_broker.rs: the tail of a stream is the end of what was appended.
use nxr.Base.{
  ℕ, ◌+◌, ◌-◌, ◌≤◌, ◌≡◌, refl, sym, ap, ◌∙◌, List, [], ◌∷◌, ◌++◌, ltb, leb, ◌==◌, length, drop,
  length-drop, length-append, drop-append_le, drop-append_ge, arith, if◌then◌else◌, Bool-cases, inl,
  inr, leb→le,
}
use nxr.Base.Words.{u64_max, saturating_add}
use nxr.Logs.Broker.{max_tail_bytes, push_tail}

-- The last `max_tail_bytes` bytes.
unfoldable pub last_bytes : List ℕ → List ℕ
last_bytes bytes = drop (length bytes - max_tail_bytes) bytes

pub length-last_bytes : (bytes : List ℕ) → length (last_bytes bytes) ≤ max_tail_bytes
unfolding last_bytes
length-last_bytes bytes = omega (arith, length-drop (length bytes - max_tail_bytes) bytes)

drop-none : (n : ℕ) (xs : List ℕ) → n ≡ 0 → drop n xs ≡ xs
drop-none n xs h = rw h refl

append-nothing : (xs ys : List ℕ) → length ys ≡ 0 → xs ++ ys ≡ xs
append-nothing [] [] h = refl
append-nothing [] (y ∷ ys) h = absurd (omega (arith, h))
append-nothing (x ∷ xs) ys h = ground (arith, append-nothing xs ys h)

last_long :
    (tail bytes : List ℕ)
    → max_tail_bytes ≤ length bytes
    → last_bytes (tail ++ bytes) ≡ drop (length bytes - max_tail_bytes) bytes
unfolding last_bytes
last_long tail bytes h =
    let n = length (tail ++ bytes) - max_tail_bytes in
    let rest : n - length tail ≡ length bytes - max_tail_bytes =
      omega (arith, h, length-append tail bytes) in
    drop-append_ge n tail bytes (omega (arith, h, length-append tail bytes))
    ∙ ap (λ (k : ℕ). drop k bytes) rest

last_short :
    (tail bytes : List ℕ)
    → length bytes ≤ max_tail_bytes
    → last_bytes (tail ++ bytes) ≡ drop (length tail + length bytes - max_tail_bytes) tail ++ bytes
unfolding last_bytes
last_short tail bytes h =
    rw (length-append tail bytes)
      (drop-append_le (length tail + length bytes - max_tail_bytes) tail bytes (omega (arith, h)))

-- The guard on the overflow changes nothing: dropping 0 bytes keeps them.
guarded_drop :
    (n m : ℕ) (tail : List ℕ)
    → n ≤ length tail
    → m ≡ n
    → (if ltb 0 m then drop (if leb m (length tail) then m else length tail) tail else tail)
      ≡ drop n tail
guarded_drop n m tail h e = rw e (ground (arith, h, drop-none n tail))

-- A tail that is not too long becomes the last bytes of itself and what is appended.
pub push_tail_lem :
    (tail bytes : List ℕ)
    → length tail ≤ max_tail_bytes
    → push_tail tail bytes ≡ last_bytes (tail ++ bytes)
unfolding push_tail
push_tail_lem tail bytes h = elim (Bool-cases (length bytes == 0)) [
  | inl e ↦
      let none : length bytes ≡ 0 = ground (arith, e) in
      let kept : drop (length tail + length bytes - max_tail_bytes) tail ≡ tail =
        drop-none (length tail + length bytes - max_tail_bytes) tail (omega (arith, none, h)) in
      let same : last_bytes (tail ++ bytes) ≡ tail =
        last_short tail bytes (omega (arith, none))
        ∙ ap (λ (xs : List ℕ). xs ++ bytes) kept
        ∙ append-nothing tail bytes none in
      rw (e, same) refl
  | inr e ↦ elim (Bool-cases (leb max_tail_bytes (length bytes))) [
    | inl l ↦ rw (e, l) (sym (last_long tail bytes (leb→le max_tail_bytes (length bytes) l)))
    | inr l ↦
        let small : length bytes ≤ max_tail_bytes = ground (arith, l) in
        let overflow : saturating_add u64_max (length tail) (length bytes) - max_tail_bytes
            ≡ length tail + length bytes - max_tail_bytes =
          ground (arith, h, small) in
        rw (e, l)
          (ap (λ (xs : List ℕ). xs ++ bytes)
              (guarded_drop (length tail + length bytes - max_tail_bytes)
                (saturating_add u64_max (length tail) (length bytes) - max_tail_bytes) tail
                (omega (arith, small)) overflow)
            ∙ sym (last_short tail bytes small))
  ]
]
