-- ===== src/Http/RequestHead/Line.antt =====
-- The request line, printed and read.
use snode.Prelude.{
  ℕ, suc, ◌+◌, ◌-◌, ◌≡◌, ◌≢◌, ◌<◌, refl, sym, ap, ◌∙◌, Bool, true, false, not, [], ◌∷◌, ◌++◌, Bytes,
  codes, length, take, drop, ltb, ◌==◌, if◌then◌else◌, arith, All, All-append, append_assoc,
  length-append, take-append_left, take_all, drop-append_left, drop-drop, Bool-cases, inl, inr,
}
use snode.Http.Helpers.{is_space, validate_method}
use snode.Http.RequestHead.{
  skip_space, take_word, take_line, HttpLine, accepted, bad_request, bytes_equal, url_and_version,
  handle_http_line, verb_read, spelt, methods,
}

abbrev pub IsText : ℕ → Type 0
IsText c = is_space c ≡ false

abbrev pub IsInLine : ℕ → Type 0
IsInLine c = c ≢ 10

-- The rest of a request line behind its URL, in version 1 and with the digit after the dot.
abbrev pub version_of : ℕ → Bytes
version_of d = 32 ∷ 72 ∷ 84 ∷ 84 ∷ 80 ∷ 47 ∷ 49 ∷ 46 ∷ d ∷ 13 ∷ []

abbrev pub print_line : Bytes → Bytes → ℕ → Bytes
print_line method url d = method ++ (32 ∷ (url ++ version_of d))

skip_space-text :
    (w rest : Bytes) → 0 < length w → All IsText w → skip_space (w ++ rest) ≡ w ++ rest
unfolding skip_space
skip_space-text [] rest h a = absurd (omega arith)
skip_space-text (c ∷ w) rest h a = rw (a.0)

take_word-text : (w rest : Bytes) → All IsText w → take_word (w ++ 32 ∷ rest) ≡ (w, 32 ∷ rest)
unfolding take_word
take_word-text [] rest a = refl
take_word-text (c ∷ w) rest a =
    rw (a.0) (ap (λ (p : Bytes × Bytes). (c ∷ p.0, p.1)) (take_word-text w rest a.1))

pub take_line-text : (s rest : Bytes) → All IsInLine s → take_line (s ++ 10 ∷ rest) ≡ (s, rest)
unfolding take_line
take_line-text [] rest a = refl
take_line-text (c ∷ s) rest a =
    let other : (c == 10) ≡ false = ground (arith, a.0) in
    rw other (ap (λ (p : Bytes × Bytes). (c ∷ p.0, p.1)) (take_line-text s rest a.1))

version-InLine : (d : ℕ) → d ≢ 10 → All IsInLine (version_of d)
version-InLine d h = ground (arith, h)

version-old : (d : ℕ) → bytes_equal (take 8 (drop 1 (version_of d))) (codes "HTTP/1.0") ≡ (d == 48)
version-old d = elim (Bool-cases (d == 48)) [ inl e ↦ rw e | inr e ↦ rw e ]

module _ (verb url rest : Bytes) (d : ℕ) (some : 0 < length url) where
  abbrev line : Bytes
  line = 32 ∷ (url ++ version_of d)

  length-line : length line ≡ length url + 11
  length-line = omega (arith, length-append url (version_of d))

  url_taken : take (length line - 10 - 1) (url ++ version_of d) ≡ url
  url_taken =
      let n : length line - 10 - 1 ≡ length url = omega (arith, length-line) in
      ap (λ i. take i (url ++ version_of d)) n
      ∙ take-append_left (length url) url (version_of d) (omega arith)
      ∙ take_all (length url) url (omega arith)

  version_taken : drop (length line - 10 + 1) line ≡ drop 1 (version_of d)
  version_taken =
      let n : length line - 10 + 1 ≡ suc (length url + 1) = omega (arith, length-line) in
      ap (λ i. drop i line) n
      ∙ sym (drop-drop 1 (length url) (length url + 1) (url ++ version_of d) refl)
      ∙ ap (drop 1) (drop-append_left (length url) url (version_of d) refl)

  url_and_version_lem : url_and_version verb (line, rest) ≡ accepted verb url (d == 48) rest
  unfolding url_and_version
  url_and_version_lem =
      let long : ltb (length line) 12 ≡ false = ground (arith, length-line) in
      rw long (
        ap
          (λ u.
            accepted verb u
              (bytes_equal (take 8 (drop (length line - 10 + 1) line)) (codes "HTTP/1.0")) rest)
          url_taken
        ∙ ap (λ v. accepted verb url (bytes_equal (take 8 v) (codes "HTTP/1.0")) rest) version_taken
        ∙ ap (λ b. accepted verb url b rest) (version-old d))

if_not : {b : Bool} (x y : HttpLine) → b ≡ true → (if not b then x else y) ≡ y
if_not x y h = rw h

pub handle_http_line-print :
    (iequals : Bytes → Bytes → Bool) (method url rest : Bytes) (d : ℕ)
    → 0 < length method
    → All IsText method
    → validate_method (spelt iequals (methods iequals) method) ≡ true
    → 0 < length url
    → All IsInLine url
    → d ≢ 10
    → handle_http_line iequals (print_line method url d ++ 10 ∷ rest)
      ≡ accepted (spelt iequals (methods iequals) method) url (d == 48) rest
unfolding handle_http_line
handle_http_line-print iequals method url rest d some text valid long inline digit =
    let l : Bytes = url ++ version_of d in
    let e : print_line method url d ++ 10 ∷ rest ≡ method ++ 32 ∷ (l ++ 10 ∷ rest) =
      append_assoc method (32 ∷ l) (10 ∷ rest) in
    let skipped = skip_space-text method (32 ∷ (l ++ 10 ∷ rest)) some text in
    let word = take_word-text method (l ++ 10 ∷ rest) text in
    let cut =
      take_line-text (32 ∷ l) rest
        (omega arith, All-append IsInLine url (version_of d) inline (version-InLine d digit)) in
    let verb = spelt iequals (methods iequals) method in
    ap (λ b. verb_read iequals (take_word (skip_space b))) e
    ∙ ap (λ b. verb_read iequals (take_word b)) skipped
    ∙ ap (verb_read iequals) word
    ∙ if_not bad_request (url_and_version verb (take_line (32 ∷ (l ++ 10 ∷ rest)))) valid
    ∙ ap (url_and_version verb) cut
    ∙ url_and_version_lem verb url rest d long
