-- ===== src/Http/Chunked/Hex.antt =====
-- The hexadecimal numbers of a chunk's size.
use snode.Prelude.{
  ℕ, zero, suc, ◌+◌, ◌-◌, ◌*◌, ◌/◌, ◌%◌, ◌≤◌, ◌<◌, ◌≡◌, ◌≢◌, refl, ap, ◌∙◌, [], ◌∷◌, ◌++◌, Bytes,
  length, replicate, ltb, leb, if◌then◌else◌, arith, All, All-append, length-append,
  length-replicate, Bool-cases, inl, inr, take_all,
}
use snode.Http.Chunked.{hex_digit, hex_on, hex, hex8, spaces}

abbrev pub digit_value : ℕ → ℕ
digit_value c = if leb c 57 then c - 48 else c - 55

-- The number that digits stand for, after `acc`.
abbrev pub value : ℕ → Bytes → ℕ
value acc [] = acc
value acc (c ∷ s) = value (acc * 16 + digit_value c) s

value_snoc :
    (acc : ℕ) (s : Bytes) (c : ℕ) → value acc (s ++ c ∷ []) ≡ value acc s * 16 + digit_value c
value_snoc acc [] c = refl
value_snoc acc (d ∷ s) c = value_snoc (acc * 16 + digit_value d) s c

abbrev pub pow16 : ℕ → ℕ
pow16 zero = 1
pow16 (suc k) = 16 * pow16 k

digit_value_lem : (d : ℕ) → d < 16 → digit_value (hex_digit d) ≡ d
digit_value_lem d h = ground arith

value-hex_on : (fuel n : ℕ) → n < pow16 fuel → value 0 (hex_on fuel n) ≡ n
unfolding hex_on
value-hex_on zero n h = omega arith
value-hex_on (suc fuel) n h = elim (Bool-cases (ltb n 16)) [
  | inl one ↦ rw one (ground (arith, digit_value_lem n))
  | inr more ↦ rw more (
      omega (
        arith,
        value_snoc 0 (hex_on fuel (n / 16)) (hex_digit (n % 16)),
        value-hex_on fuel (n / 16) (omega arith),
        digit_value_lem (n % 16) (omega arith),
      ))
]

-- The digits of a `size_t` stand for it.
pub value-hex : (n : ℕ) → n < 18446744073709551616 → value 0 (hex n) ≡ n
unfolding hex
value-hex n h = value-hex_on 16 n h

length-hex_on : (fuel k n : ℕ) → n < pow16 (suc k) → length (hex_on fuel n) ≤ suc k
unfolding hex_on
length-hex_on zero k n h = omega arith
length-hex_on (suc fuel) zero n h = ground arith
length-hex_on (suc fuel) (suc k) n h = elim (Bool-cases (ltb n 16)) [
  | inl one ↦ rw one (omega arith)
  | inr more ↦ rw more (
      omega (
        arith,
        length-append (hex_on fuel (n / 16)) (hex_digit (n % 16) ∷ []),
        length-hex_on fuel k (n / 16) (omega arith),
      ))
]

pub length-hex : (n : ℕ) → n < 4294967296 → length (hex n) ≤ 8
unfolding hex
length-hex n h = length-hex_on 16 7 n h

hex_on-starts : (fuel n : ℕ) → 0 < length (hex_on (suc fuel) n)
unfolding hex_on
hex_on-starts fuel n =
    ground (arith, length-append (hex_on fuel (n / 16)) (hex_digit (n % 16) ∷ []))

abbrev IsText : ℕ → Type 0
IsText c = c ≢ 32

hex_on-IsText : (fuel n : ℕ) → All IsText (hex_on fuel n)
unfolding hex_on
hex_on-IsText zero n = tt
hex_on-IsText (suc fuel) n = elim (Bool-cases (ltb n 16)) [
  | inl one ↦ rw one (ground arith)
  | inr more ↦ rw more (
      All-append IsText (hex_on fuel (n / 16)) (hex_digit (n % 16) ∷ [])
        (hex_on-IsText fuel (n / 16)) (ground arith))
]

pub spaces-replicate :
    (k : ℕ) (s t : Bytes) → 0 < length s → All IsText s → spaces (replicate k 32 ++ s ++ t) ≡ k
unfolding spaces
spaces-replicate zero [] t h a = absurd (omega arith)
spaces-replicate zero (c ∷ s) t h a = ground (arith, a.0)
spaces-replicate (suc k) s t h a = ground (arith, spaces-replicate k s t h a)

-- Padding to eight characters is spaces and then the digits.
pub hex8_lem : (n : ℕ) → n < 4294967296 → hex8 n ≡ replicate (8 - length (hex n)) 32 ++ hex n
unfolding hex8
hex8_lem n h = take_all 8 (replicate (8 - length (hex n)) 32 ++ hex n) (
    omega (
      arith,
      length-append (replicate (8 - length (hex n)) 32) (hex n),
      length-replicate {A = ℕ} (8 - length (hex n)) 32,
      length-hex n h,
    ))

pub length-hex8 : (n : ℕ) → n < 4294967296 → length (hex8 n) ≡ 8
length-hex8 n h = omega (
  arith,
  ap length (hex8_lem n h),
  length-append (replicate (8 - length (hex n)) 32) (hex n),
  length-replicate {A = ℕ} (8 - length (hex n)) 32,
  length-hex n h,
)

-- The offset that the loop finds is that of the first digit.
pub spaces-hex8 : (n : ℕ) (t : Bytes) → n < 4294967296 → spaces (hex8 n ++ t) ≡ 8 - length (hex n)
unfolding hex
spaces-hex8 n t h =
    ap (λ s. spaces (s ++ t)) (hex8_lem n h)
    ∙ spaces-replicate (8 - length (hex_on 16 n)) (hex_on 16 n) t (hex_on-starts 15 n)
        (hex_on-IsText 16 n)
