-- ===== src/Http/HeaderSize.antt =====
-- The headers that hold a `size_t`: `match` of src/http_headers.h with its `bind_impl`, by `>>` of a
-- stream in the classic locale, and the content length of src/http_msg.cpp.
pub mod Decimal
mod Tests
use snode.Prelude.{
  ℕ, ◌+◌, ◌-◌, ◌*◌, Bool, true, false, ◌&&◌, [], ◌∷◌, Option, none, some, Bytes, codes, size_mod,
  sub_size, ltb, leb, ◌==◌, if◌then◌else◌,
}
use snode.Http.Headers.{HeadersMap, find, put, add, has}
use snode.Http.Helpers.{is_nil}
use snode.Http.Message.{Message, print_size}
use snode.Http.RequestHead.{skip_space}

abbrev pub is_digit : ℕ → Bool
is_digit c = leb 48 c && leb c 57

-- The digits in front, and what is behind them.
unfoldable pub take_digits : Bytes → Bytes × Bytes
take_digits [] = ([], [])
take_digits (c ∷ s) =
    let (front, rest) = take_digits s in if is_digit c then (c ∷ front, rest) else ([], c ∷ s)

-- The number that digits stand for, behind `acc`.
abbrev pub value : ℕ → Bytes → ℕ
value acc [] = acc
value acc (c ∷ s) = value (acc * 10 + (c - 48)) s

-- What `>>` stores for a sign and digits, and whether it succeeds: 0 without digits, the largest number
-- where they stand for none, and the wrapped one behind a minus.
unfoldable pub stored : Bool → Bytes → ℕ × Bool
stored minus digits =
    if is_nil digits
    then (0, false)
    else if leb size_mod (value 0 digits)
    then (size_mod - 1, false)
    else if minus
    then (sub_size 0 (value 0 digits), true)
    else (value 0 digits, true)

-- Success is asked for together with the end of the text.
abbrev pub up_to_end : ℕ × Bool → Bytes → ℕ × Bool
up_to_end (n, ok) rest = (n, ok && is_nil rest)

unfoldable pub signed : Bool → Bytes × Bytes → ℕ × Bool
unfolding stored
signed minus (digits, rest) = up_to_end (stored minus digits) rest

-- `>>` and the two tests of `bind_impl`; where there is nothing but white space the target is kept.
unfoldable pub bind_size : ℕ → Bytes → ℕ × Bool
unfolding take_digits signed
bind_size target [] = (target, false)
bind_size target (c ∷ s) =
    if c == 45
    then signed true (take_digits s)
    else if c == 43
    then signed false (take_digits s)
    else signed false (take_digits (c ∷ s))

-- `match` on the value found; an empty one keeps the target and matches.
unfoldable pub match_value : ℕ → Option Bytes → ℕ × Bool
unfolding bind_size skip_space
match_value target none = (target, false)
match_value target (some []) = (target, true)
match_value target (some (c ∷ s)) = bind_size target (skip_space (c ∷ s))

unfoldable pub match_size : Bytes → ℕ → HeadersMap → ℕ × Bool
unfolding match_value find
match_size name target m = match_value target (find name m)

unfoldable pub content_length : HeadersMap → ℕ
unfolding match_size
content_length m = (match_size (codes "Content-Length") 0 m).0

unfoldable pub set_content_length : ℕ → HeadersMap → HeadersMap
unfolding print_size put
set_content_length length m = put (codes "Content-Length") (print_size length) m

-- `get_content_length` of `http_msg_base`; it may add the header for chunks.
unfoldable pub get_content_length : Message → ℕ × Message
unfolding has match_size add
get_content_length m = elim m.instream_ [
  | none ↦ (0, m)
  | some stream ↦
      if has (codes "Transfer-Encoding") m.headers_
      then (size_mod - 1, m)
      else if (match_size (codes "Content-Length") 0 m.headers_).1
      then ((match_size (codes "Content-Length") 0 m.headers_).0, m)
      else (
        size_mod - 1,
        record m { headers_ = add (codes "Transfer-Encoding") (codes "chunked") m.headers_ },
      )
]
