-- ===== src/Http/Helpers/Trimming.antt =====
-- What trimming leaves of a text.
use snode.Prelude.{
  ℕ, ◌≡◌, refl, sym, ap, ◌∙◌, Bool, true, false, ◌&&◌, [], ◌∷◌, ◌++◌, Bytes, All, if◌then◌else◌,
  Bool-cases, inl, inr, append_assoc,
}
use snode.Http.Helpers.{is_space, is_nil, ltrim_whitespace, rtrim_whitespace, trim_whitespace}

abbrev pub IsSpace : ℕ → Type 0
IsSpace c = is_space c ≡ true

abbrev pub starts_with_space : Bytes → Bool
starts_with_space [] = false
starts_with_space (c ∷ s) = is_space c

abbrev pub ends_with_space : Bytes → Bool
ends_with_space [] = false
ends_with_space (c ∷ []) = is_space c
ends_with_space (c ∷ d ∷ s) = ends_with_space (d ∷ s)

ltrim_lem :
    (s : Bytes)
    → (pre : Bytes) × All IsSpace pre
      × (s ≡ pre ++ ltrim_whitespace s)
      × (starts_with_space (ltrim_whitespace s) ≡ false)
unfolding ltrim_whitespace
ltrim_lem [] = ([], tt, refl, refl)
ltrim_lem (c ∷ s) = elim (Bool-cases (is_space c)) [
  | inl space ↦
      let (pre, spaces, split, ends) = ltrim_lem s in
      rw space (c ∷ pre, (space, spaces), ap (◌∷◌ c) split, ends)
  | inr text ↦ rw text ([], tt, refl, text)
]

abbrev RightTrimmed : Bytes → Bytes → Type 0
RightTrimmed s r = (post : Bytes) × All IsSpace post × (s ≡ r ++ post) × (ends_with_space r ≡ false)

RightTrimmed-cons :
    (c : ℕ) (s r : Bytes)
    → RightTrimmed s r
    → RightTrimmed (c ∷ s) (if is_nil r && is_space c then [] else c ∷ r)
RightTrimmed-cons c s [] (post, spaces, split, ends) = elim (Bool-cases (is_space c)) [
  | inl space ↦ rw space (c ∷ post, (space, spaces), ap (◌∷◌ c) split, refl)
  | inr text ↦ rw text (post, spaces, ap (◌∷◌ c) split, text)
]
RightTrimmed-cons c s (d ∷ r) (post, spaces, split, ends) = (post, spaces, ap (◌∷◌ c) split, ends)

rtrim_lem : (s : Bytes) → RightTrimmed s (rtrim_whitespace s)
unfolding rtrim_whitespace
rtrim_lem [] = ([], tt, refl, refl)
rtrim_lem (c ∷ s) = RightTrimmed-cons c s (rtrim_whitespace s) (rtrim_lem s)

rtrim_start :
    (s : Bytes) → starts_with_space s ≡ false → starts_with_space (rtrim_whitespace s) ≡ false
unfolding rtrim_whitespace
rtrim_start [] h = refl
rtrim_start (c ∷ s) h = by_test (is_nil (rtrim_whitespace s) && is_space c)
  where
    by_test : (b : Bool) → starts_with_space (if b then [] else c ∷ rtrim_whitespace s) ≡ false
    by_test true = refl
    by_test false = h

-- Trimming cuts white space off both ends of a text and nothing else, and what is left neither
-- begins nor ends with white space.
pub trim_whitespace_lem :
    (s : Bytes)
    → (pre post : Bytes) × All IsSpace pre
      × All IsSpace post
      × (s ≡ pre ++ trim_whitespace s ++ post)
      × (starts_with_space (trim_whitespace s) ≡ false)
      × (ends_with_space (trim_whitespace s) ≡ false)
unfolding trim_whitespace
trim_whitespace_lem s =
    let (pre, spaces, split, starts) = ltrim_lem s in
    let (post, spaces', split', ends) = rtrim_lem (ltrim_whitespace s) in
    (
      pre,
      post,
      spaces,
      spaces',
      split
          ∙ ap (◌++◌ pre) split'
          ∙ sym (append_assoc pre (rtrim_whitespace (ltrim_whitespace s)) post),
      rtrim_start (ltrim_whitespace s) starts,
      ends,
    )

pub ltrim_same : (s : Bytes) → starts_with_space s ≡ false → ltrim_whitespace s ≡ s
unfolding ltrim_whitespace
ltrim_same [] h = refl
ltrim_same (c ∷ s) h = rw h

pub rtrim_same : (s : Bytes) → ends_with_space s ≡ false → rtrim_whitespace s ≡ s
unfolding rtrim_whitespace
rtrim_same [] h = refl
rtrim_same (c ∷ []) h = rw h
rtrim_same (c ∷ d ∷ s) h =
    ap (λ r. if is_nil r && is_space c then [] else c ∷ r) (rtrim_same (d ∷ s) h)

pub trim_same :
    (s : Bytes) → starts_with_space s ≡ false → ends_with_space s ≡ false → trim_whitespace s ≡ s
unfolding trim_whitespace
trim_same s h k = ap rtrim_whitespace (ltrim_same s h) ∙ rtrim_same s k

rtrim-snoc : (s : Bytes) (c : ℕ) → IsSpace c → rtrim_whitespace (s ++ c ∷ []) ≡ rtrim_whitespace s
unfolding rtrim_whitespace
rtrim-snoc [] c h = rw h
rtrim-snoc (d ∷ s) c h = ap (λ r. if is_nil r && is_space d then [] else d ∷ r) (rtrim-snoc s c h)

-- A text with a white space character on each side.
pub trim-between :
    (s : Bytes) (b c : ℕ)
    → IsSpace b
    → IsSpace c
    → starts_with_space s ≡ false
    → ends_with_space s ≡ false
    → trim_whitespace (b ∷ (s ++ c ∷ [])) ≡ s
unfolding trim_whitespace ltrim_whitespace
trim-between [] b c h k n m = rw (h, k) refl
trim-between (d ∷ s) b c h k n m = rw (h, n) (rtrim-snoc (d ∷ s) c k ∙ rtrim_same (d ∷ s) m)
