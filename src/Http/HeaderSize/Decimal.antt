-- ===== src/Http/HeaderSize/Decimal.antt =====
-- Decimal numbers, printed and read.
use snode.Prelude.{
  ℕ, zero, suc, ◌+◌, ◌-◌, ◌*◌, ◌/◌, ◌%◌, ◌<◌, ◌≡◌, refl, true, false, [], ◌∷◌, ◌++◌, Bytes, some,
  length, size_mod, ltb, arith, All, All-append, length-append, Bool-cases, inl, inr,
}
use snode.Http.Message.{decimal_on, print_size}
use snode.Http.HeaderSize.{is_digit, take_digits, value, stored, signed, match_value}

value_snoc : (acc : ℕ) (s : Bytes) (c : ℕ) → value acc (s ++ c ∷ []) ≡ value acc s * 10 + (c - 48)
value_snoc acc [] c = refl
value_snoc acc (d ∷ s) c = value_snoc (acc * 10 + (d - 48)) s c

abbrev pow10 : ℕ → ℕ
pow10 zero = 1
pow10 (suc k) = 10 * pow10 k

value-decimal_on : (fuel n : ℕ) → n < pow10 fuel → value 0 (decimal_on fuel n) ≡ n
unfolding decimal_on
value-decimal_on zero n h = omega arith
value-decimal_on (suc fuel) n h = elim (Bool-cases (ltb n 10)) [
  | inl one ↦ rw one (ground arith)
  | inr more ↦ rw more (
      omega (
        arith,
        value_snoc 0 (decimal_on fuel (n / 10)) (n % 10 + 48),
        value-decimal_on fuel (n / 10) (omega arith),
      ))
]

abbrev pub IsDigit : ℕ → Type 0
IsDigit c = is_digit c ≡ true

decimal_on-IsDigit : (fuel n : ℕ) → All IsDigit (decimal_on fuel n)
unfolding decimal_on
decimal_on-IsDigit zero n = tt
decimal_on-IsDigit (suc fuel) n = elim (Bool-cases (ltb n 10)) [
  | inl one ↦ rw one (ground arith)
  | inr more ↦ rw more (
      All-append IsDigit (decimal_on fuel (n / 10)) ((n % 10 + 48) ∷ [])
        (decimal_on-IsDigit fuel (n / 10)) (ground arith))
]

decimal_on-starts : (fuel n : ℕ) → 0 < length (decimal_on (suc fuel) n)
unfolding decimal_on
decimal_on-starts fuel n =
    ground (arith, length-append (decimal_on fuel (n / 10)) ((n % 10 + 48) ∷ []))

take_digits-All : (s : Bytes) → All IsDigit s → take_digits s ≡ (s, [])
unfolding take_digits
take_digits-All [] a = refl
take_digits-All (c ∷ s) a = ground (arith, a, take_digits-All s a.1)

stored-digits :
    (c : ℕ) (s : Bytes)
    → value 0 (c ∷ s) < size_mod
    → stored false (c ∷ s) ≡ (value 0 (c ∷ s), true)
unfolding stored
stored-digits c s h = ground arith

-- A text of digits alone is matched by the number that it stands for.
match-digits :
    (target n : ℕ) (s : Bytes)
    → 0 < length s
    → All IsDigit s
    → value 0 s ≡ n
    → n < size_mod
    → match_value target (some s) ≡ (n, true)
unfolding match_value signed
match-digits target n [] h a e l = absurd (omega arith)
match-digits target n (c ∷ s) h a e l =
    let small : value 0 (c ∷ s) < size_mod = omega (arith, e, l) in
    ground (arith, a, e, take_digits-All (c ∷ s) a, stored-digits c s small)

-- What is printed for a `size_t` is matched by it.
pub match-print_size :
    (target n : ℕ) → n < size_mod → match_value target (some (print_size n)) ≡ (n, true)
unfolding print_size
match-print_size target n h =
    match-digits target n (decimal_on 20 n) (decimal_on-starts 19 n) (decimal_on-IsDigit 20 n)
      (value-decimal_on 20 n (omega arith)) h
