-- ===== src/Http/Dispatch.antt =====
-- What `http_connection` of src/http_service.cpp does behind the headers of a request: the end of
-- `handle_headers`, the choice of a handler and the way to its response. `iequals` and `ifind_first`
-- are boost's; what a handler for requests does is a parameter. A call that `async_task::connect`
-- makes later is an effect of src/http_msg.h.
pub mod Answers
mod Tests
use snode.Prelude.{
  ℕ, zero, suc, Bool, true, false, not, List, [], ◌∷◌, ◌++◌, Option, none, some, Bytes, codes, take,
  length, ◌==◌, if◌then◌else◌,
}
use snode.Http.Headers.{HeadersMap, match_text}
use snode.Http.HeaderSize.{match_size}
use snode.Http.Message.{
  Message, Response, Request, Effect, Outcome, complete, async_get_data_available,
  async_get_response, reply_if_not_already,
}
use snode.Uri.{split_path}

-- `path`, for the first segments.
unfoldable pub path_text : List Bytes → Bytes
path_text [] = 47 ∷ []
path_text (segment ∷ segments) = 47 ∷ (segment ++ path_text segments)

-- The loop over the paths, from the longest on; `p_handler` is what the last call returned.
unfoldable pub locate : (Bytes → Option ℕ) → ℕ → List Bytes → Option ℕ → Option ℕ
unfolding path_text
locate lookup zero segments p_handler = lookup (path_text (take 0 segments))
locate lookup (suc i) segments p_handler =
    locate lookup i segments (lookup (path_text (take (suc i) segments)))

-- `http_service::get_req_handler`
abbrev pub get_req_handler : Bytes → Option ℕ
get_req_handler url_path = none

-- `std::bind` of `handle_response` with its flag, and of `handle_request_data_ready`.
abbrev pub response_op : Bool → ℕ
response_op bad_request = if bad_request then 1 else 0

abbrev pub data_op : ℕ
data_op = 2

unfoldable pub do_response : Bool → Request → Outcome
unfolding async_get_response
do_response bad_request q = async_get_response (response_op bad_request) q

abbrev pub then_do : Outcome → (Request → Outcome) → Outcome
then_do o f =
    let o' = f o.after in
    record { after = o'.after; effects = o.effects ++ o'.effects; threw = o'.threw }

-- `catch (...)` around the handler.
abbrev pub catch : Outcome → Outcome
catch o = if o.threw then then_do (record o { threw = false }) (reply_if_not_already 500) else o

unfoldable pub dispatch_to : (ℕ → Request → Outcome) → Option ℕ → Request → Outcome
unfolding do_response reply_if_not_already
dispatch_to handle_request none q = then_do (reply_if_not_already 404 q) (do_response false)
dispatch_to handle_request (some p) q =
    then_do (do_response false q) (λ q'. catch (handle_request p q'))

unfoldable pub dispatch_request_to_listener : (ℕ → Request → Outcome) → Request → Outcome
unfolding locate dispatch_to split_path
dispatch_request_to_listener handle_request q =
    let path_segments = split_path q.url_ in
    dispatch_to handle_request (locate get_req_handler (length path_segments) path_segments none) q

-- `true` where `async_process_response` is called.
unfoldable pub handle_response : Bool → Request → (Request × List Effect) × Bool
unfolding async_get_data_available
handle_response bad_request q =
    if bad_request
    then ((q, []), true)
    else if q.message.data_available_ == 0
    then (let (m, effects) = async_get_data_available data_op q.message in
        ((record q { message = m }, effects), false))
    else ((q, []), true)

abbrev pub handle_request_data_ready : ℕ → Bool
handle_request_data_ready count = not (count == 0)

-- What is read from the socket behind the headers.
pub data Reading : Type 0 where
  chunks nothing : Reading
  body : ℕ → Reading

module _ (iequals ifind_first : Bytes → Bytes → Bool) where
  unfoldable pub asked_to_close : HeadersMap → Bool
  unfolding match_text
  asked_to_close m =
      let (name, found) = match_text (codes "Connection") [] m in
      if found then iequals name (codes "close") else false

  unfoldable pub in_chunks : HeadersMap → Bool
  unfolding match_text
  in_chunks m =
      let (name, found) = match_text (codes "Transfer-Encoding") [] m in
      if found then ifind_first name (codes "chunked") else false

  abbrev pub of_length : ℕ × Bool → Reading
  of_length (n, found) = if found then (if n == 0 then nothing else body n) else nothing

  -- `chunked_` and `read_size_`, on which it depends what is read.
  unfoldable pub body_reading : HeadersMap → Reading
  unfolding in_chunks match_size
  body_reading m =
      if in_chunks m then chunks else of_length (match_size (codes "Content-Length") 0 m)

  abbrev pub completed : Reading → Request → Request × List Effect
  completed nothing q =
      let (m, effects) = complete 0 q.message in (record q { message = m }, effects)
  completed chunks q = (q, [])
  completed (body n) q = (q, [])

  -- The end of `handle_headers`, behind the creation of the streams: whether the connection is to be
  -- closed, what is read, and the call of `dispatch_request_to_listener`. The streams are created of
  -- a local buffer, which no `shared_ptr` owns, so that `create_istream` fails in `shared_from_this`.
  unfoldable pub behind_streams : (ℕ → Request → Outcome) → Request → (Bool × Reading) × Outcome
  unfolding asked_to_close body_reading complete dispatch_request_to_listener
  behind_streams handle_request q =
      let m = q.message.headers_ in
      let (q', effects) = completed (body_reading m) q in
      (
        (asked_to_close m, body_reading m),
        then_do (record { after = q'; effects = effects; threw = false })
            (dispatch_request_to_listener handle_request),
      )
