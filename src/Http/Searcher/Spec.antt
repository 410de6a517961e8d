-- ===== src/Http/Searcher/Spec.antt =====
-- What the searcher looks for: the regular expression of the comment above it, "\r\n\r\n" or a control
-- character or a byte from 128 on, CR and LF apart. It is checked here at each byte against all that
-- was read before, without a state.
use snode.Prelude.{
  ℕ, ◌+◌, ◌≡◌, refl, sym, ap, ◌∙◌, Bool, true, false, not, ◌&&◌, ◌||◌, [], ◌∷◌, Bytes, Option, none,
  some, leb, ◌==◌, if◌then◌else◌, arith,
}
use snode.Http.Searcher.{State, Verdict, stop, go, judge, loop, search, exclude}
use snode.Http.Searcher.Laws.{after, loop-after}

abbrev begins : Bytes → Bytes → Bool
begins [] s = true
begins (c ∷ p) [] = false
begins (c ∷ p) (d ∷ s) = c == d && begins p s

-- `c` ends the search after the bytes of `back`, the last one first.
abbrev pub ends : Bytes → ℕ → Bool
ends back c =
    (c == 10 && begins (13 ∷ 10 ∷ 13 ∷ []) back)
    || (leb c 31 && not (c == 13) && not (c == 10))
    || leb 128 c

-- The place behind the first byte that ends the search.
abbrev pub first_end : Bytes → Bytes → ℕ → Option ℕ
first_end back [] cur = none
first_end back (c ∷ s) cur =
    let rest = first_end (c ∷ back) s (cur + 1) in if ends back c then some (cur + 1) else rest

abbrev pub found : ℕ × Bool → Option ℕ
found (n, true) = some n
found (n, false) = none

state_of : Bytes → State
state_of back =
    if begins (13 ∷ 10 ∷ 13 ∷ []) back
    then State.crlfcr
    else if begins (10 ∷ 13 ∷ []) back
    then State.crlf
    else if begins (13 ∷ []) back
    then State.cr
    else State.none

Agrees : Bytes → ℕ → Verdict → Type 0
Agrees back c stop = ends back c ≡ true
Agrees back c (go e σ) = (ends back c ≡ false) × (σ ≡ state_of (c ∷ back))

judge-Agrees : (back : Bytes) (c e cur : ℕ) → Agrees back c (judge c (state_of back) e cur)
unfolding judge state_of Agrees
judge-Agrees [] c e cur = ground arith
judge-Agrees (x ∷ []) c e cur = ground arith
judge-Agrees (x ∷ y ∷ []) c e cur = ground arith
judge-Agrees (x ∷ y ∷ z ∷ back) c e cur = ground arith

loop_first :
    (s back : Bytes) (e cur : ℕ) → found (loop s e cur (state_of back)) ≡ first_end back s cur
unfolding after Agrees
loop_first [] back e cur = unfold loop in refl
loop_first (c ∷ s) back e cur =
    ap found (loop-after c s e cur (state_of back))
    ∙ by_verdict (judge c (state_of back) e cur) (judge-Agrees back c e cur)
        (λ e'. loop_first s (c ∷ back) e' (cur + 1))
  where
    rest : Option ℕ
    rest = first_end (c ∷ back) s (cur + 1)

    by_verdict :
        (v : Verdict)
        → Agrees back c v
        → ((e' : ℕ) → found (loop s e' (cur + 1) (state_of (c ∷ back))) ≡ rest)
        → found (after s cur v) ≡ (if ends back c then some (cur + 1) else rest)
    by_verdict stop a ih = ap (λ b. if b then some (cur + 1) else rest) (sym a)
    by_verdict (go e' σ) a ih =
        ap (λ x. found (loop s (exclude x e' (cur + 1)) (cur + 1) x)) a.1
        ∙ ih (exclude (state_of (c ∷ back)) e' (cur + 1))
        ∙ ap (λ b. if b then some (cur + 1) else rest) (sym a.0)

-- For every input the searcher returns true exactly where "\r\n\r\n", a control character other
-- than CR and LF or a byte from 128 on first ends, with the position behind it.
pub search-first_end : (s : Bytes) → found (search s) ≡ first_end [] s 0
unfolding search
search-first_end s = ap (λ σ. found (loop s 0 0 σ)) start ∙ loop_first s [] 0 0
  where
    start : State.none ≡ state_of []
    start = unfold state_of in refl
