-- ===== src/Http/ChunkReader/Hexadecimal.antt =====
-- Reading the size of a chunk back from its digits.
use snode.Prelude.{
  ℕ, zero, suc, ◌+◌, ◌*◌, ◌/◌, ◌%◌, ◌≤◌, ◌<◌, ◌≡◌, refl, ap, ◌∙◌, true, false, [], ◌∷◌, ◌++◌, Bytes,
  length, min, ltb, arith, All, All-append, length-append, Bool-cases, inl, inr,
}
use snode.Prelude.Int.{pos}
use snode.Http.Chunked.{hex_digit, hex_on, hex}
use snode.Http.Chunked.Hex.{digit_value, value, value-hex}
use snode.Http.ChunkReader.{
  skip_spaces, take_sign, skip_prefix, is_hex, hex_value, digits, int_max, extract_hex, has_crlf,
}

-- The digits that the sender writes, in the code that reads them.
pub record IsDigit (c : ℕ) : Type 0 where
  pub hex_digit : is_hex c ≡ true
  pub same : hex_value c ≡ digit_value c
  pub low : c ≤ 70
  pub high : 48 ≤ c

hex_digit-IsDigit : (d : ℕ) → d < 16 → IsDigit (hex_digit d)
hex_digit-IsDigit d h = record {
  hex_digit = ground arith;
  same = ground arith;
  low = ground arith;
  high = ground arith;
}

hex_on-IsDigit : (fuel n : ℕ) → All IsDigit (hex_on fuel n)
unfolding hex_on
hex_on-IsDigit zero n = tt
hex_on-IsDigit (suc fuel) n = elim (Bool-cases (ltb n 16)) [
  | inl one ↦ rw one (hex_digit-IsDigit n (ground arith), tt)
  | inr more ↦ rw more (
      All-append IsDigit (hex_on fuel (n / 16)) (hex_digit (n % 16) ∷ [])
        (hex_on-IsDigit fuel (n / 16)) (hex_digit-IsDigit (n % 16) (omega arith), tt))
]

pub hex-IsDigit : (n : ℕ) → All IsDigit (hex n)
unfolding hex
hex-IsDigit n = hex_on-IsDigit 16 n

hex_on_some : (fuel n : ℕ) → 0 < length (hex_on (suc fuel) n)
unfolding hex_on
hex_on_some fuel n = ground (arith, length-append (hex_on fuel (n / 16)) (hex_digit (n % 16) ∷ []))

hex_some : (n : ℕ) → 0 < length (hex n)
unfolding hex
hex_some n = hex_on_some 15 n

digits-value :
    (acc : ℕ) (s rest : Bytes)
    → All IsDigit s
    → digits acc (s ++ 13 ∷ rest) ≡ (value acc s, 13 ∷ rest)
unfolding digits
digits-value acc [] rest a = refl
digits-value acc (c ∷ s) rest a = rw (a.0.hex_digit) (
    ap (λ v. digits (acc * 16 + v) (s ++ 13 ∷ rest)) a.0.same
    ∙ digits-value (acc * 16 + digit_value c) s rest a.1)

-- Nothing in front of the digits is taken off.
starts :
    (s rest : Bytes)
    → All IsDigit s
    → 0 < length s
    → (skip_spaces (s ++ 13 ∷ rest) ≡ s ++ 13 ∷ rest)
      × (take_sign (s ++ 13 ∷ rest) ≡ (false, s ++ 13 ∷ rest))
      × (skip_prefix (s ++ 13 ∷ rest) ≡ s ++ 13 ∷ rest)
unfolding skip_spaces take_sign skip_prefix
starts [] rest a h = absurd (omega arith)
starts (c ∷ []) rest a h =
    (ground (arith, a.0.low, a.0.high), ground (arith, a.0.low, a.0.high), ground arith)
starts (c ∷ d ∷ s) rest a h = (
  ground (arith, a.0.low, a.0.high),
  ground (arith, a.0.low, a.0.high),
  ground (arith, a.1.0.low),
)

pub extract_hex-hex :
    (n : ℕ) (rest : Bytes) → n ≤ int_max → extract_hex (hex n ++ 13 ∷ rest) ≡ (pos n, 13 ∷ rest)
unfolding extract_hex
extract_hex-hex n rest h =
    let (a, b, c) = starts (hex n) rest (hex-IsDigit n) (hex_some n) in
    let d = digits-value 0 (hex n) rest (hex-IsDigit n) in
    rw a (
      rw b (
        rw c (
          rw d (
            ap (λ (v : ℕ). (pos (min v int_max), 13 ∷ rest)) (value-hex n (omega arith))
            ∙ ap (λ (v : ℕ). (pos v, 13 ∷ rest)) (omega arith)))))

-- Once CRLF is in the buffer, the whole line of the size is.
pub line_whole :
    (ds buf future rest : Bytes)
    → All IsDigit ds
    → buf ++ future ≡ ds ++ 13 ∷ 10 ∷ rest
    → has_crlf buf ≡ true
    → (left : Bytes) × (buf ≡ ds ++ 13 ∷ 10 ∷ left) × (left ++ future ≡ rest)
line_whole ds [] future rest a e h = absurd (ground arith)
line_whole ds (c ∷ []) future rest a e h = absurd (ground arith)
line_whole [] (c ∷ d ∷ buf) future rest a e h = (buf, ground arith, ground arith)
line_whole (e ∷ ds) (c ∷ d ∷ buf) future rest a q h =
    let ih = line_whole ds (d ∷ buf) future rest a.1 (ground arith) (ground (arith, a.0.high)) in
    (ih.0, ground (arith, ih.1), ih.2)
