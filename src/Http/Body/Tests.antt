-- ===== src/Http/Body/Tests.antt =====
-- The reading of a body of three bytes that comes in two parts, with a byte of the next request
-- behind it.
use snode.Prelude.{◌≤◌, ◌≡◌, refl, [], ◌∷◌, ◌++◌, Bytes, none, some, length, take, arith}
use snode.Http.Body.{
  Connection, idle, start_body, handle_body, handle_body_buff_write, Reading, begun, arrived, taken,
}
use snode.Http.Body.Laws.{IsReady, Reading-conserves, Reading-delivers}

abbrev start : Connection
start = record {
  request_buf_ = 1 ∷ 2 ∷ [];
  read_ = 0;
  read_size_ = 3;
  accepted = [];
  completed = none;
}

start-IsReady : IsReady start
start-IsReady = record {
  nothing_read = refl;
  nothing_out = refl;
  not_completed = refl;
  small = omega arith;
}

abbrev finish : Connection
finish = record {
  request_buf_ = 4 ∷ [];
  read_ = 3;
  read_size_ = 3;
  accepted = 1 ∷ 2 ∷ 3 ∷ [];
  completed = some 3;
}

whole : Reading start (3 ∷ 4 ∷ []) (finish, idle)
unfolding start_body handle_body handle_body_buff_write
whole = arrived (taken (arrived begun (3 ∷ 4 ∷ []) (omega arith))) [] (omega arith)

abbrev stream : Bytes
stream = 1 ∷ 2 ∷ 3 ∷ 4 ∷ []

Reading-conserves_example :
    (finish.accepted ++ finish.request_buf_ ≡ stream)
    × (length finish.accepted ≤ 3)
    × (finish.read_ ≡ length finish.accepted)
Reading-conserves_example = Reading-conserves start-IsReady whole

Reading-delivers_example : (3 ≡ start.read_size_) × (finish.accepted ≡ take 3 stream)
Reading-delivers_example = Reading-delivers start-IsReady whole refl (omega arith)
