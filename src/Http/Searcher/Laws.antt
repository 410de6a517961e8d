-- ===== src/Http/Searcher/Laws.antt =====
-- The contract of a match condition: what it returns when it finds nothing is where the next search,
-- with more input, can begin.
use snode.Prelude.{
  ℕ, ◌+◌, ◌≡◌, refl, sym, ap, ◌∙◌, Bool, true, false, [], ◌∷◌, ◌++◌, Bytes, leb, ◌==◌,
  if◌then◌else◌, length, drop, arith, ◌⊎◌, inl, inr, ◌||◌, Bool-cases, ==_iff, drop-drop,
  append-nil,
}
use mathlib.Core.Path.{subst}
use snode.Http.Searcher.{State, Verdict, stop, go, judge, exclude, loop, search}

-- The part of a match that a state stands for.
abbrev pub partial : State → Bytes
partial State.none = []
partial State.cr = 13 ∷ []
partial State.crlf = 13 ∷ 10 ∷ []
partial State.crlfcr = 13 ∷ 10 ∷ 13 ∷ []

abbrev pub shift : ℕ → ℕ × Bool → ℕ × Bool
shift k (n, found) = (k + n, found)

abbrev moved : ℕ → Verdict → Verdict
moved k stop = stop
moved k (go e s) = go (k + e) s

judge-shift :
    (k c : ℕ) (s : State) (e cur : ℕ) → judge c s (k + e) (k + cur) ≡ moved k (judge c s e cur)
unfolding judge
judge-shift k c State.none e cur = ground arith
judge-shift k c State.cr e cur = ground arith
judge-shift k c State.crlf e cur = ground arith
judge-shift k c State.crlfcr e cur = ground arith

-- What the loop does after a pass.
unfoldable pub after : Bytes → ℕ → Verdict → ℕ × Bool
after s cur stop = (cur + 1, true)
after s cur (go e σ) = loop s (exclude σ e (cur + 1)) (cur + 1) σ

pub loop-after :
    (c : ℕ) (s : Bytes) (e cur : ℕ) (σ : State)
    → loop (c ∷ s) e cur σ ≡ after s cur (judge c σ e cur)
unfolding loop after
loop-after c s e cur σ = by_case (judge c σ e cur)
  where
    by_case :
        (v : Verdict)
        → elim v [
          | stop ↦ (cur + 1, true)
          | go e' σ' ↦ loop s (exclude σ' e' (cur + 1)) (cur + 1) σ'
        ]
          ≡ after s cur v
    by_case stop = refl
    by_case (go e' σ') = refl

exclude-shift : (σ : State) (k e next : ℕ) → exclude σ (k + e) (k + next) ≡ k + exclude σ e next
exclude-shift State.none k e next = refl
exclude-shift State.cr k e next = refl
exclude-shift State.crlf k e next = refl
exclude-shift State.crlfcr k e next = refl

after-shift :
    (k : ℕ) (s : Bytes) (cur : ℕ) (v : Verdict)
    → ((e cur : ℕ) (σ : State) → loop s (k + e) (k + cur) σ ≡ shift k (loop s e cur σ))
    → after s (k + cur) (moved k v) ≡ shift k (after s cur v)
unfolding after
after-shift k s cur stop ih = ap (λ n. (n, true)) (omega arith)
after-shift k s cur (go e σ) ih =
    let n : k + cur + 1 ≡ k + (cur + 1) = omega arith in
    ap (λ n. loop s (exclude σ (k + e) n) n σ) n
    ∙ ap (λ x. loop s x (k + (cur + 1)) σ) (exclude-shift σ k e (cur + 1))
    ∙ ih (exclude σ e (cur + 1)) (cur + 1) σ

loop-shift :
    (k : ℕ) (s : Bytes) (e cur : ℕ) (σ : State)
    → loop s (k + e) (k + cur) σ ≡ shift k (loop s e cur σ)
loop-shift k [] e cur σ = unfold loop in refl
loop-shift k (c ∷ s) e cur σ =
    loop-after c s (k + e) (k + cur) σ
    ∙ ap (after s (k + cur)) (judge-shift k c σ e cur)
    ∙ after-shift k s cur (judge c σ e cur) (λ e' cur' σ'. loop-shift k s e' cur' σ')
    ∙ ap (shift k) (sym (loop-after c s e cur σ))

-- The loop with a match begun at position 0.
from : State → Bytes → ℕ × Bool
from σ s = loop s 0 (length (partial σ)) σ

search-partial : (σ : State) (t : Bytes) → search (partial σ ++ t) ≡ from σ t
unfolding search from
search-partial State.none t = refl
search-partial State.cr t = refl
search-partial State.crlf t = refl
search-partial State.crlfcr t = refl

-- One byte in state `σ`: the search ends, or the match that it leaves is a suffix of what was read.
Steps : State → ℕ → Type 0
Steps σ c =
    ((s : Bytes) → from σ (c ∷ s) ≡ (length (partial σ) + 1, true))
    ⊎ ((k : ℕ) × (σ' : State) × ((s : Bytes) → from σ (c ∷ s) ≡ shift k (from σ' s))
        × ((t : Bytes) → drop k (partial σ ++ c ∷ t) ≡ partial σ' ++ t))

judge_other :
    (c : ℕ) (σ : State) (e cur : ℕ)
    → (c == 13) ≡ false
    → (c == 10) ≡ false
    → judge c σ e cur ≡ (if leb c 31 || leb 128 c then stop else go e State.none)
unfolding judge
judge_other c σ e cur h k = ground arith

Steps-other : (σ : State) (c : ℕ) → (c == 13) ≡ false → (c == 10) ≡ false → Steps σ c
unfolding from Steps after
Steps-other σ c h k = elim (Bool-cases (leb c 31 || leb 128 c)) [
  | inl ends ↦ inl λ s.
      loop-after c s 0 n σ
      ∙ ap (after s n)
          (judge_other c σ 0 n h k ∙ ap (λ b. if b then stop else go 0 State.none) ends)
  | inr on ↦ inr (
    n + 1,
    State.none,
    λ s.
        loop-after c s 0 n σ
        ∙ ap (after s n)
            (judge_other c σ 0 n h k ∙ ap (λ b. if b then stop else go 0 State.none) on)
        ∙ (let e : n + 1 ≡ n + 1 + 0 = omega arith in ap (λ i. loop s i i State.none) e)
        ∙ loop-shift (n + 1) s 0 0 State.none,
    dropped σ,
  )
]
  where
    n : ℕ
    n = length (partial σ)

    dropped : (σ : State) (t : Bytes) → drop (length (partial σ) + 1) (partial σ ++ c ∷ t) ≡ t
    dropped State.none t = refl
    dropped State.cr t = refl
    dropped State.crlf t = refl
    dropped State.crlfcr t = refl

Steps-cr : (σ : State) → Steps σ 13
unfolding from Steps loop
Steps-cr State.none = inr (0, State.cr, λ s. loop-shift 0 s 0 1 State.cr, λ t. refl)
Steps-cr State.cr = inr (1, State.cr, λ s. loop-shift 1 s 0 1 State.cr, λ t. refl)
Steps-cr State.crlf = inr (0, State.crlfcr, λ s. loop-shift 0 s 0 3 State.crlfcr, λ t. refl)
Steps-cr State.crlfcr = inr (3, State.cr, λ s. loop-shift 3 s 0 1 State.cr, λ t. refl)

Steps-lf : (σ : State) → Steps σ 10
unfolding from Steps loop
Steps-lf State.none = inr (1, State.none, λ s. loop-shift 1 s 0 0 State.none, λ t. refl)
Steps-lf State.cr = inr (0, State.crlf, λ s. loop-shift 0 s 0 2 State.crlf, λ t. refl)
Steps-lf State.crlf = inr (3, State.none, λ s. loop-shift 3 s 0 0 State.none, λ t. refl)
Steps-lf State.crlfcr = inl λ s. refl

Steps-any : (σ : State) (c : ℕ) → Steps σ c
Steps-any σ c = elim (Bool-cases (c == 13)) [
  | inl cr ↦ subst (Steps σ) (sym ((==_iff c 13).0 cr)) (Steps-cr σ)
  | inr other ↦ elim (Bool-cases (c == 10)) [
    | inl lf ↦ subst (Steps σ) (sym ((==_iff c 10).0 lf)) (Steps-lf σ)
    | inr text ↦ Steps-other σ c other text
  ]
]

shift_zero : (o : ℕ × Bool) → o ≡ shift 0 o
shift_zero (n, f) = ap (λ i. (i, f)) (omega arith)

shift-shift : (k m e : ℕ) (o : ℕ × Bool) → e ≡ k + m → shift k (shift m o) ≡ shift e o
shift-shift k m e (n, f) h = ap (λ i. (i, f)) (omega arith)

-- A search that finds nothing leaves the state of a match of which all that it did not consume is
-- the beginning.
from-resume :
    (σ : State) (s : Bytes) (e : ℕ)
    → from σ s ≡ (e, false)
    → (σ' : State) × (drop e (partial σ ++ s) ≡ partial σ')
      × ((t : Bytes) → from σ (s ++ t) ≡ shift e (from σ' t))
unfolding Steps
from-resume σ [] e h =
    let f : from σ [] ≡ (0, false) = unfold from loop in refl in
    let z : e ≡ 0 = ap (λ (o : ℕ × Bool). o.0) (sym h ∙ f) in
    (
      σ,
      ap (λ i. drop i (partial σ ++ [])) z ∙ append-nil (partial σ),
      λ t. shift_zero (from σ t) ∙ ap (λ i. shift i (from σ t)) (sym z),
    )
from-resume σ (c ∷ s) e h = elim (Steps-any σ c) [
  | inl found ↦ let q : true ≡ false = ap (λ (o : ℕ × Bool). o.1) (sym (found s) ∙ h) in cc
  | inr (k, σ', on, split) ↦
      let e' = (from σ' s).0 in
      let same : e ≡ k + e' = ap (λ (o : ℕ × Bool). o.0) (sym h ∙ on s) in
      let quiet : (from σ' s).1 ≡ false = ap (λ (o : ℕ × Bool). o.1) (sym (on s) ∙ h) in
      let (σ'', left, rest) = from-resume σ' s e' (ap (λ f. (e', f)) quiet) in
      (
        σ'',
        sym (drop-drop e' k e (partial σ ++ c ∷ s) same) ∙ ap (drop e') (split s) ∙ left,
        λ t. on (s ++ t) ∙ ap (shift k) (rest t) ∙ shift-shift k e' e (from σ'' t) same,
      )
]

-- Where a search finds nothing and consumes e bytes, a search from there over the rest and any
-- more input finds, e bytes on, what a search over the whole input finds.
pub search-resume :
    (s t : Bytes) (e : ℕ)
    → search s ≡ (e, false)
    → search (s ++ t) ≡ shift e (search (drop e s ++ t))
search-resume s t e h =
    let (σ, left, rest) = from-resume State.none s e (sym (search-partial State.none s) ∙ h) in
    search-partial State.none (s ++ t)
    ∙ rest t
    ∙ ap (shift e) (sym (search-partial σ t) ∙ ap (λ p. search (p ++ t)) (sym left))
