-- ===== src/Http/Helpers/Tests.antt =====
-- Runs of the helpers, and their laws at them.
use snode.Prelude.{◌≡◌, refl, true, false, ◌∷◌, ◌++◌, Bytes, none, some, codes, same, All}
use snode.Http.Helpers.{
  front_is, back_is, trim_whitespace, parse_content_type_and_charset, validate_method,
}
use snode.Http.Helpers.Trimming.{IsSpace, starts_with_space, ends_with_space, trim_whitespace_lem}
use snode.Http.Helpers.Parsing.{IsPlain, charset_text, parse_content_type_and_charset_lem}

method_get : validate_method (codes "GET") ≡ true
unfolding validate_method
method_get = refl

method_space : validate_method (codes "G T") ≡ false
unfolding validate_method
method_space = refl

-- Quotes come off; an empty charset is undefined in the source.
parse_quoted :
    parse_content_type_and_charset same (codes "text/html ; charset=\"utf-8\";")
    ≡ some (codes "text/html", codes "utf-8")
unfolding parse_content_type_and_charset
parse_quoted = refl

parse_empty : parse_content_type_and_charset same (codes "text/html; charset=") ≡ none
unfolding parse_content_type_and_charset
parse_empty = refl

parse_json :
    parse_content_type_and_charset same (codes "text/json")
    ≡ some (codes "text/json", codes "utf-8")
unfolding parse_content_type_and_charset
parse_json = refl

trimmed :
    (pre post : Bytes) × All IsSpace pre
    × All IsSpace post
    × (codes " a b " ≡ pre ++ trim_whitespace (codes " a b ") ++ post)
    × (starts_with_space (trim_whitespace (codes " a b ")) ≡ false)
    × (ends_with_space (trim_whitespace (codes " a b ")) ≡ false)
trimmed = trim_whitespace_lem (codes " a b ")

utf8-IsPlain : IsPlain (codes "utf-8")
unfolding front_is back_is
utf8-IsPlain = record { filled = refl; starts = refl; ends = refl; unquoted = refl; closed = refl }

parse_content_type_and_charset_lem_example :
    parse_content_type_and_charset same (codes "a/b" ++ 59 ∷ 32 ∷ charset_text (codes "utf-8"))
    ≡ some (codes "a/b", codes "utf-8")
parse_content_type_and_charset_lem_example =
    parse_content_type_and_charset_lem same refl (refl, (refl, (refl, tt))) refl refl utf8-IsPlain
