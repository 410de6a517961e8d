-- ===== src/Http/Helpers.antt =====
-- The helpers of src/http_helpers.cpp on header values and methods. `isspace` is that of the "C"
-- locale. `iequals` stands for `boost::iequals`, by which strings are compared up to case.
pub mod Trimming
pub mod Parsing
mod Tests
use snode.Prelude.{
  ℕ, zero, suc, ◌+◌, Bool, true, false, not, ◌&&◌, ◌||◌, List, [], ◌∷◌, Option, none, some, Bytes,
  codes, length, get_elem?, take, drop, sub_size, ltb, leb, ◌==◌, if◌then◌else◌,
}

abbrev pub is_space : ℕ → Bool
is_space c = c == 32 || leb 9 c && leb c 13

abbrev pub is_nil : Bytes → Bool
is_nil [] = true
is_nil (c ∷ s) = false

unfoldable pub ltrim_whitespace : Bytes → Bytes
ltrim_whitespace [] = []
ltrim_whitespace (c ∷ s) = let rest = ltrim_whitespace s in if is_space c then rest else c ∷ s

unfoldable pub rtrim_whitespace : Bytes → Bytes
rtrim_whitespace [] = []
rtrim_whitespace (c ∷ s) =
    let rest = rtrim_whitespace s in if is_nil rest && is_space c then [] else c ∷ rest

unfoldable pub trim_whitespace : Bytes → Bytes
unfolding ltrim_whitespace rtrim_whitespace
trim_whitespace s = rtrim_whitespace (ltrim_whitespace s)

-- `find_first_of` of one character, with `none` for `npos`.
unfoldable pub find_first_of : ℕ → Bytes → Option ℕ
find_first_of d [] = none
find_first_of d (c ∷ s) =
    let rest = find_first_of d s in
    if c == d then some 0 else elim rest [ none ↦ none | some i ↦ some (i + 1) ]

-- `while (charset.back() == ';') charset.pop_back()`. Where it leaves nothing, the source reads
-- `back()` of an empty string, which is undefined.
unfoldable pub drop_semicolons : Bytes → Bytes
drop_semicolons [] = []
drop_semicolons (c ∷ s) =
    let rest = drop_semicolons s in if is_nil rest && c == 59 then [] else c ∷ rest

unfoldable pub front_is : ℕ → Bytes → Bool
front_is d [] = false
front_is d (c ∷ s) = c == d

unfoldable pub back_is : ℕ → Bytes → Bool
back_is d [] = false
back_is d (c ∷ []) = c == d
back_is d (c ∷ e ∷ s) = back_is d (e ∷ s)

-- The end of the parsing, with the charset before (`kept`) and after it is trimmed. `none` stands for
-- `back()` or `front()` of an empty string.
abbrev pub unquote_charset : Bytes → Bytes → Option Bytes
unquote_charset kept charset =
    if is_nil kept || is_nil charset
    then none
    else if front_is 34 charset && back_is 34 charset
    then some (trim_whitespace (take (sub_size (length charset) 2) (drop 1 charset)))
    else some charset

-- From `charset = possible_charset.substr(equals_index + 1)` on.
unfoldable pub charset_of : Bytes → Option Bytes
unfolding trim_whitespace drop_semicolons front_is back_is
charset_of s = let kept = drop_semicolons s in unquote_charset kept (trim_whitespace kept)

-- The table by character, 0 for `false` and 1 for `true`.
abbrev pub valid_chars : List ℕ
valid_chars =
    0 ∷ 0 ∷ 0 ∷ 0 ∷ 0 ∷ 0 ∷ 0 ∷ 0 ∷ 0 ∷ 0 ∷ 0 ∷ 0 ∷ 0 ∷ 0 ∷ 0 ∷ 0 ∷ 0 ∷ 0 ∷ 0 ∷ 0 ∷ 0 ∷ 0 ∷ 0 ∷ 0
    ∷ 0 ∷ 0 ∷ 0 ∷ 0 ∷ 0 ∷ 0 ∷ 0 ∷ 0 ∷ 0 ∷ 1 ∷ 0 ∷ 1 ∷ 1 ∷ 1 ∷ 1 ∷ 1 ∷ 0 ∷ 0 ∷ 1 ∷ 1 ∷ 0 ∷ 1 ∷ 1 ∷ 0
    ∷ 1 ∷ 1 ∷ 1 ∷ 1 ∷ 1 ∷ 1 ∷ 1 ∷ 1 ∷ 1 ∷ 1 ∷ 0 ∷ 0 ∷ 0 ∷ 0 ∷ 0 ∷ 0 ∷ 0 ∷ 1 ∷ 1 ∷ 1 ∷ 1 ∷ 1 ∷ 1 ∷ 1
    ∷ 1 ∷ 1 ∷ 1 ∷ 1 ∷ 1 ∷ 1 ∷ 1 ∷ 1 ∷ 1 ∷ 1 ∷ 1 ∷ 1 ∷ 1 ∷ 1 ∷ 1 ∷ 1 ∷ 1 ∷ 1 ∷ 1 ∷ 0 ∷ 0 ∷ 0 ∷ 0 ∷ 0
    ∷ 0 ∷ 1 ∷ 1 ∷ 1 ∷ 1 ∷ 1 ∷ 1 ∷ 1 ∷ 1 ∷ 1 ∷ 1 ∷ 1 ∷ 1 ∷ 1 ∷ 1 ∷ 1 ∷ 1 ∷ 1 ∷ 1 ∷ 1 ∷ 1 ∷ 1 ∷ 1 ∷ 1
    ∷ 1 ∷ 1 ∷ 1 ∷ 0 ∷ 1 ∷ 0 ∷ 1 ∷ 0 ∷ []

-- `valid_chars[ch_sz]`, inside the bounds that are tested before it.
unfoldable pub valid_char : ℕ → Bool
valid_char ch_sz = elim (get_elem? valid_chars ch_sz) [ none ↦ false | some v ↦ v == 1 ]

unfoldable pub validate_method : Bytes → Bool
unfolding valid_char
validate_method [] = true
validate_method (ch_sz ∷ method) =
    let rest = validate_method method in
    if leb 128 ch_sz then false else if not (valid_char ch_sz) then false else rest

module _ (iequals : Bytes → Bytes → Bool) where
  unfoldable pub is_content_type_one_of : List Bytes → Bytes → Bool
  is_content_type_one_of [] value = false
  is_content_type_one_of (t ∷ ts) value = iequals t value || is_content_type_one_of ts value

  unfoldable pub is_content_type_textual : Bytes → Bool
  unfolding is_content_type_one_of
  is_content_type_textual content_type =
      if leb 4 (length content_type) && iequals (take 4 content_type) (codes "text")
      then true
      else is_content_type_one_of
          (codes "message/http"
            ∷ codes "application/json"
            ∷ codes "application/xml"
            ∷ codes "application/atom+xml"
            ∷ codes "application/http"
            ∷ codes "application/x-www-form-urlencoded"
            ∷ [])
          content_type

  unfoldable pub is_content_type_json : Bytes → Bool
  unfolding is_content_type_one_of
  is_content_type_json content_type =
      is_content_type_one_of
        (codes "application/json"
          ∷ codes "application/x-json"
          ∷ codes "text/json"
          ∷ codes "text/x-json"
          ∷ codes "text/javascript"
          ∷ codes "text/x-javascript"
          ∷ codes "application/javascript"
          ∷ codes "application/x-javascript"
          ∷ [])
        content_type

  unfoldable pub get_default_charset : Bytes → Bytes
  unfolding is_content_type_json
  get_default_charset content_type =
      if is_content_type_json content_type then codes "utf-8" else codes "iso-8859-1"

  -- The second part of a value, which follows the semicolon and may name a charset.
  unfoldable pub charset_part : Bytes → Bytes → Option Bytes
  unfolding get_default_charset find_first_of charset_of
  charset_part content possible_charset = elim (find_first_of 61 possible_charset) [
    | none ↦ some (get_default_charset content)
    | some equals_index ↦
        let charset_key = trim_whitespace (take equals_index possible_charset) in
        if not (iequals charset_key (codes "charset"))
        then some (get_default_charset content)
        else charset_of (drop (equals_index + 1) possible_charset)
  ]

  unfoldable pub with_charset : Bytes → Bytes → Option (Bytes × Bytes)
  unfolding charset_part
  with_charset content possible_charset = elim (charset_part content possible_charset) [
    | none ↦ none
    | some charset ↦ some (content, charset)
  ]

  -- The content type and the charset; `none` where the source is undefined.
  unfoldable pub parse_content_type_and_charset : Bytes → Option (Bytes × Bytes)
  unfolding with_charset
  parse_content_type_and_charset content_type = elim (find_first_of 59 content_type) [
    | none ↦
        let content = trim_whitespace content_type in some (content, get_default_charset content)
    | some semi_colon_index ↦
        with_charset (trim_whitespace (take semi_colon_index content_type))
          (trim_whitespace (drop (semi_colon_index + 1) content_type))
  ]
