-- ===== src/Uri/Segments.antt =====
-- What `split_path` returns of a path.
use snode.Prelude.{
  ℕ, zero, suc, ◌+◌, ◌≡◌, length, drop, drop-drop, drop-append_left, refl, sym, ap, ◌∙◌, true,
  false, List, [], ◌∷◌, ◌++◌, Bytes, All, ◌==◌, if◌then◌else◌, arith,
}
use snode.Http.Helpers.{is_nil}
use snode.Http.Helpers.Parsing.{find_first_of-append}
use snode.Uri.{is_at, pieces, onto, keep, path_of, after_host, split_path}

-- A segment is not empty and has no slash.
abbrev pub IsSegment : Bytes → Type 0
IsSegment s = (is_nil s ≡ false) × All (λ c. (c == 47) ≡ false) s

abbrev IsPiece : Bytes → Type 0
IsPiece s = All (λ c. (c == 47) ≡ false) s

-- The segments joined, each with a slash behind it.
abbrev pub joined : List Bytes → Bytes
joined [] = []
joined (p ∷ ps) = p ++ 47 ∷ joined ps

pieces-append : (p s : Bytes) → IsPiece p → pieces (p ++ 47 ∷ s) ≡ p ∷ pieces s
pieces-append [] s a = refl
pieces-append (c ∷ p) s a = rw a.0 (ap (onto c) (pieces-append p s a.1))

keep-pieces : (ps : List Bytes) → All IsSegment ps → keep (pieces (joined ps)) ≡ ps
keep-pieces [] a = refl
keep-pieces (p ∷ ps) a =
    ap keep (pieces-append p (joined ps) a.0.1)
    ∙ ap (λ b. if b then keep (pieces (joined ps)) else p ∷ keep (pieces (joined ps))) a.0.0
    ∙ ap (◌∷◌ p) (keep-pieces ps a.1)

is_at-append : (xs ys : Bytes) (i j c : ℕ) → j ≡ length xs + i → is_at (xs ++ ys) j c ≡ is_at ys i c
is_at-append [] ys i j c e = let z : j ≡ i = omega arith in ap (λ k. is_at ys k c) z
is_at-append (x ∷ xs) ys i zero c e = absurd (omega arith)
is_at-append (x ∷ xs) ys i (suc j) c e = is_at-append xs ys i j c (omega arith)

-- A URI of a scheme, a host and a path.
abbrev pub address_of : Bytes → Bytes → Bytes → Bytes
address_of scheme host path = scheme ++ 58 ∷ 47 ∷ 47 ∷ (host ++ 47 ∷ path)

path_of_lem :
    (scheme host path : Bytes)
    → All (λ c. (c == 58) ≡ false) scheme
    → All (λ c. (c == 47) ≡ false) host
    → path_of (address_of scheme host path) ≡ path
unfolding path_of
path_of_lem scheme host path a b =
    let rest = host ++ 47 ∷ path in
    let tail = 58 ∷ 47 ∷ 47 ∷ rest in
    let uri = scheme ++ tail in
    let n = length scheme in
    let colon = find_first_of-append 58 scheme (47 ∷ 47 ∷ rest) a in
    let first : is_at uri (n + 1) 47 ≡ true = is_at-append scheme tail 1 (n + 1) 47 refl in
    let second : is_at uri (n + 2) 47 ≡ true = is_at-append scheme tail 2 (n + 2) 47 refl in
    let behind : drop (n + 3) uri ≡ rest =
      sym (drop-drop 3 n (n + 3) uri refl) ∙ ap (drop 3) (drop-append_left n scheme tail refl) in
    let slash = find_first_of-append 47 host path b in
    let path_behind : drop (length host + 1) rest ≡ path =
      sym (drop-drop 1 (length host) (length host + 1) rest refl)
      ∙ ap (drop 1) (drop-append_left (length host) host (47 ∷ path) refl) in
    rw (colon, first, second, path_of) (ap after_host behind ∙ rw (slash, after_host) path_behind)

-- Of a URI with a scheme that has no colon, a host that has no slash and a path of segments that
-- are not empty and have no slash, each with a slash behind it, split_path returns the segments.
pub split_path-joined :
    (scheme host : Bytes) (ps : List Bytes)
    → All (λ c. (c == 58) ≡ false) scheme
    → All (λ c. (c == 47) ≡ false) host
    → All IsSegment ps
    → split_path (address_of scheme host (joined ps)) ≡ ps
unfolding split_path
split_path-joined scheme host ps a b segments =
    ap (λ s. keep (pieces s)) (path_of_lem scheme host (joined ps) a b) ∙ keep-pieces ps segments
