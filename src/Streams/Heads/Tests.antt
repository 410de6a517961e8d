-- ===== src/Streams/Heads/Tests.antt =====
-- Heads on two stream buffers, and the property at them.
use snode.Prelude.{◌≡◌, refl, true, false, not, ◌&&◌, [], ◌∷◌, none, some, ◌==◌}
use snode.Streams.Streambuf
use snode.Streams.Streambuf.Samples.{holding}
use snode.Streams.Heads.{
  Store, done, undefined, thrown, new_ostream, new_istream, close_ostream, close_istream, write_ch,
  print, print_value, print_line, flush, tell_in, tell_out, is_open_out, is_open_in, is_eof,
}
use snode.Streams.Heads.Closing.{close-refuses}

-- Every buffer holds one byte and is open in both directions.
abbrev two_buffers : Store
two_buffers p = holding true (7 ∷ [])

null_head : write_ch 1 7 none two_buffers ≡ undefined
unfolding write_ch
null_head = refl

-- The head has no buffer to ask, so that it is not open and not at its end.
null_asked :
    (is_open_in none two_buffers ≡ false)
    × (is_eof none two_buffers ≡ false)
    × ((close_ostream none two_buffers).1 ≡ [])
unfolding is_open_in is_eof close_ostream
null_asked = (refl, refl, refl)

printed :
    print_line 1 (52 ∷ 50 ∷ []) (some 0) two_buffers
    ≡ done (Streambuf.put_n 1 (52 ∷ 50 ∷ 10 ∷ []) ∷ [])
unfolding print_line
printed = refl

-- A character 0 ends the text of a value.
cut : print_value 1 (52 ∷ 0 ∷ 50 ∷ []) (some 0) two_buffers ≡ print 1 (52 ∷ []) (some 0) two_buffers
unfolding print_value print
cut = refl

positions : (tell_in (some 0) two_buffers ≡ done none) × (tell_out (some 0) two_buffers ≡ done none)
unfolding tell_in tell_out
positions = (refl, refl)

close-refuses_example :
    let out = (close_ostream (some 0) two_buffers).0 in
    let both = (close_istream (some 0) out).0 in
    (is_open_out (some 1) out ≡ (not (0 == 1) && is_open_out (some 1) two_buffers))
    × (is_open_in (some 1) out ≡ is_open_in (some 1) two_buffers)
    × (is_open_in (some 1) both ≡ (not (0 == 1) && is_open_in (some 1) two_buffers))
    × (is_open_out (some 1) both ≡ is_open_out (some 1) out)
    × (new_ostream (some 0) both ≡ thrown)
    × (write_ch 1 7 (some 0) both ≡ thrown)
    × (print 1 (7 ∷ 8 ∷ []) (some 0) both ≡ thrown)
    × (flush (some 0) both ≡ thrown)
    × (new_istream (some 0) both ≡ thrown)
    × (tell_in (some 0) both ≡ thrown)
close-refuses_example = close-refuses 0 1 1 7 (7 ∷ 8 ∷ []) two_buffers
