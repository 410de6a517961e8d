-- ===== src/Streams/Container/Tests.antt =====
-- Runs of the container buffer on small inputs, and its properties at them.
use snode.Prelude.{ℕ, ◌≡◌, refl, true, [], ◌∷◌, none, arith, take, drop}
use snode.Prelude.Int.{pos}
use snode.Streams.ProducerConsumer.{IntType, ch, eof, requires_async}
use snode.Streams.Container.{
  Buffer, OpenMode, read, write, seekpos, bumpc, sbumpc, ungetc, new_from,
}
use snode.Streams.Container.Laws.{IsValid, read-ahead, write_at_head}
use snode.Streams.Container.Seeking.{Sought, reading, seekpos_lem, read-seekpos-write, bumpc_at_end}

abbrev text : Buffer
text = record {
  stream_can_read_ = true;
  stream_can_write_ = true;
  data_ = 7 ∷ 8 ∷ 9 ∷ [];
  current_position_ = 2;
}

abbrev at_end : Buffer
at_end = record text { current_position_ = 3 }

abbrev both : OpenMode
both = record { mode_in = true; mode_out = true }

abbrev low_byte : IntType → ℕ
low_byte (ch c) = c
low_byte eof = 255
low_byte requires_async = 254

text-IsValid : IsValid text
text-IsValid = omega arith

-- A write overwrites, and grows the array.
write-text : (write text (1 ∷ 2 ∷ [])).1.data_ ≡ 7 ∷ 8 ∷ 1 ∷ 2 ∷ []
unfolding write
write-text = refl

ungetc-text : ungetc low_byte text ≡ (ch 8, record text { current_position_ = 1 })
unfolding ungetc
ungetc-text = refl

-- A collection cannot be opened for both sides, which is what `set_body` of src/http_msg.h asks for.
new_from-both : new_from (1 ∷ []) both ≡ none
unfolding new_from
new_from-both = refl

read_ahead : (read text 5 true).0 ≡ take 5 (9 ∷ [])
read_ahead = read-ahead text-IsValid 5 true

written_at_head :
    let (n, b') = write text (1 ∷ 2 ∷ []) in
    (n ≡ 2)
    × (b'.current_position_ ≡ 4)
    × (take 4 b'.data_ ≡ 7 ∷ 8 ∷ 1 ∷ 2 ∷ [])
    × (drop 4 b'.data_ ≡ [])
    × (b'.stream_can_read_ ≡ true)
    × IsValid b'
written_at_head = write_at_head text-IsValid (1 ∷ 2 ∷ []) refl (omega arith) (omega arith)

sought : Sought text 5 (seekpos (pos 5) both text)
sought = seekpos_lem text-IsValid 5 both (omega arith)

read-seekpos-write_example :
    let b' = (write text (1 ∷ 2 ∷ [])).1 in
    let (q, b'') = seekpos (pos 2) reading b' in (q ≡ pos 2) × ((read b'' 2 true).0 ≡ 1 ∷ 2 ∷ [])
read-seekpos-write_example =
    read-seekpos-write (1 ∷ 2 ∷ []) text-IsValid refl refl (omega arith) (omega arith)

ends_in_two_ways : (sbumpc at_end ≡ (eof, at_end)) × (bumpc low_byte at_end ≡ (ch 255, at_end))
ends_in_two_ways = bumpc_at_end {b = at_end} low_byte (omega arith) refl
