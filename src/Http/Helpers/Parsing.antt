-- ===== src/Http/Helpers/Parsing.antt =====
-- Content types that carry a charset.
use snode.Prelude.{
  ℕ, ◌+◌, ◌≡◌, refl, sym, ap, ap₂, ◌∙◌, Bool, true, false, ◌&&◌, [], ◌∷◌, ◌++◌, Bytes, some, codes,
  length, take, drop, All, ◌==◌, if◌then◌else◌, arith, take-append_left, drop-append_left,
  drop-drop, take_all,
}
use snode.Http.Helpers.{
  is_nil, find_first_of, drop_semicolons, front_is, back_is, charset_of, unquote_charset,
  charset_part, with_charset, parse_content_type_and_charset, trim_whitespace,
}
use snode.Http.Helpers.Trimming.{starts_with_space, ends_with_space, trim_same}

pub find_first_of-append :
    (d : ℕ) (s t : Bytes)
    → All (λ c. (c == d) ≡ false) s
    → find_first_of d (s ++ d ∷ t) ≡ some (length s)
unfolding find_first_of
find_first_of-append d [] t a = ground arith
find_first_of-append d (c ∷ s) t a = ground (arith, a.0, find_first_of-append d s t a.1)

drop_semicolons_same : (s : Bytes) → back_is 59 s ≡ false → drop_semicolons s ≡ s
unfolding drop_semicolons back_is
drop_semicolons_same [] h = refl
drop_semicolons_same (c ∷ []) h = rw h
drop_semicolons_same (c ∷ d ∷ s) h =
    ap (λ r. if is_nil r && c == 59 then [] else c ∷ r) (drop_semicolons_same (d ∷ s) h)

-- A charset as RFC 7231 has it without quotes: not empty, no white space around it, no quote in front
-- and no semicolon behind.
pub record IsPlain (s : Bytes) : Type 0 where
  pub filled : is_nil s ≡ false
  pub starts : starts_with_space s ≡ false
  pub ends : ends_with_space s ≡ false
  pub unquoted : front_is 34 s ≡ false
  pub closed : back_is 59 s ≡ false

charset_of_plain : {s : Bytes} → IsPlain s → charset_of s ≡ some s
unfolding charset_of
charset_of_plain {s} p =
    ap (λ k. unquote_charset k (trim_whitespace k)) (drop_semicolons_same s p.closed)
    ∙ ap (unquote_charset s) (trim_same s p.starts p.ends)
    ∙ plain
  where
    plain : unquote_charset s s ≡ some s
    plain = ground (arith, p.filled, p.unquoted)

ends_append : (s t : Bytes) → is_nil t ≡ false → ends_with_space (s ++ t) ≡ ends_with_space t
ends_append [] t h = refl
ends_append (c ∷ []) [] h = cc
ends_append (c ∷ []) (d ∷ t) h = refl
ends_append (c ∷ e ∷ s) t h = ends_append (e ∷ s) t h

abbrev pub charset_text : Bytes → Bytes
charset_text charset = codes "charset=" ++ charset

trim_parameter :
    {charset : Bytes}
    → IsPlain charset
    → trim_whitespace (32 ∷ charset_text charset) ≡ charset_text charset
unfolding trim_whitespace
trim_parameter {charset} p =
    trim_same (charset_text charset) refl (ends_append (codes "charset=") charset p.filled ∙ p.ends)

module _ (iequals : Bytes → Bytes → Bool) where
  charset_part_plain :
      (content : Bytes) {charset : Bytes}
      → iequals (codes "charset") (codes "charset") ≡ true
      → IsPlain charset
      → charset_part iequals content (charset_text charset) ≡ some charset
  unfolding charset_part
  charset_part_plain content {charset} same p = rw same (charset_of_plain p)

  with_charset_plain :
      (content : Bytes) {charset : Bytes}
      → iequals (codes "charset") (codes "charset") ≡ true
      → IsPlain charset
      → with_charset iequals content (charset_text charset) ≡ some (content, charset)
  unfolding with_charset
  with_charset_plain content same p = rw (charset_part_plain content same p, with_charset)

  parse_at :
      (text : Bytes) {n : ℕ}
      → find_first_of 59 text ≡ some n
      → parse_content_type_and_charset iequals text
        ≡ with_charset iequals (trim_whitespace (take n text)) (trim_whitespace (drop (n + 1) text))
  unfolding parse_content_type_and_charset
  parse_at text found = rw (found, parse_content_type_and_charset)

  -- A content type without semicolon or white space around it, and behind it a charset that is not
  -- empty, has no white space around it, no quote in front and no semicolon behind, are parsed
  -- into these two, if iequals holds of "charset" and itself.
  pub parse_content_type_and_charset_lem :
      {content charset : Bytes}
      → iequals (codes "charset") (codes "charset") ≡ true
      → All (λ c. (c == 59) ≡ false) content
      → starts_with_space content ≡ false
      → ends_with_space content ≡ false
      → IsPlain charset
      → parse_content_type_and_charset iequals (content ++ 59 ∷ 32 ∷ charset_text charset)
        ≡ some (content, charset)
  parse_content_type_and_charset_lem {content} {charset} same plain starts ends p =
      let text = content ++ 59 ∷ 32 ∷ charset_text charset in
      let n = length content in
      let found : find_first_of 59 text ≡ some n =
        find_first_of-append 59 content (32 ∷ charset_text charset) plain in
      let first : trim_whitespace (take n text) ≡ content =
        ap trim_whitespace (
          take-append_left n content (59 ∷ 32 ∷ charset_text charset) (omega arith)
          ∙ take_all n content (omega arith))
        ∙ trim_same content starts ends in
      let second : trim_whitespace (drop (n + 1) text) ≡ charset_text charset =
        ap trim_whitespace (
          sym (drop-drop 1 n (n + 1) text refl)
          ∙ ap (drop 1) (drop-append_left n content (59 ∷ 32 ∷ charset_text charset) refl))
        ∙ trim_parameter p in
      parse_at text found
      ∙ ap₂ (with_charset iequals) first second
      ∙ with_charset_plain content same p
