-- ===== src/Http/Message.antt =====
-- `http_msg_base`, `http_response_impl` and `http_request_impl` of src/http_msg.h and src/http_msg.cpp:
-- the body streams, the headers, and the queues of handlers that wait for the body, for the response
-- and for the end of its sending. Handlers and streams are numbers; what is handed to
-- `async_task::connect` is an `Effect` in the returned list, in order.
pub mod Laws
pub mod Lost
pub mod Waiting
mod Tests
use snode.Prelude.{
  ℕ, Bool, true, false, List, [], ◌∷◌, ◌++◌, Option, none, some, Bytes, codes, length, map, ltb,
  ◌==◌, if◌then◌else◌, ◌/◌, ◌%◌, ◌+◌, zero, suc,
}
use snode.Http.Headers
use snode.Http.Headers.{HeadersMap}
use snode.Http.Phrases.{phrases}

-- `print_string` of a `size_t`, which has at most 20 digits.
unfoldable pub decimal_on : ℕ → ℕ → Bytes
decimal_on zero n = []
decimal_on (suc fuel) n =
    let rest = decimal_on fuel (n / 10) in
    if ltb n 10 then (n + 48) ∷ [] else rest ++ (n % 10 + 48) ∷ []

unfoldable pub print_size : ℕ → Bytes
unfolding decimal_on
print_size n = decimal_on 20 n

pub record Message : Type 0 where
  pub instream_ : Option ℕ
  pub outstream_ : Option ℕ
  pub headers_ : HeadersMap
  pub data_available_ : ℕ
  pub data_ready_handlers_ : List ℕ

pub record Response : Type 0 where
  pub message : Message
  pub status_code_ : ℕ
  pub reason_phrase_ : Bytes

pub record Request : Type 0 where
  pub message : Message
  pub url_ : Bytes
  pub method_ : Bytes
  pub response_ready_ : Bool
  pub initiated_response_ : Bool
  pub response_ : Response
  pub response_handlers_ : List ℕ
  pub response_complete_handlers_ : List ℕ

-- A handler called with a count, with the response of its request (by reference), or with an error,
-- and a stream that is closed. The queues keep of a handler only the part of its base class, so that
-- the calls of the handlers that waited, `sliced_data`, `sliced_response` and `sliced_complete`, read
-- a handler that is not there: what they do is undefined.
pub data Effect : Type 0 where
  data_ready : ℕ → ℕ → Effect
  response_ready : ℕ → Effect
  response_complete : ℕ → ℕ → Effect
  close_stream : ℕ → Effect
  sliced_data sliced_response sliced_complete : ℕ → Effect

abbrev pub new_message : Message
new_message = record {
  instream_ = none;
  outstream_ = none;
  headers_ = [];
  data_available_ = 0;
  data_ready_handlers_ = [];
}

abbrev pub new_response : ℕ → Response
new_response code = record { message = new_message; status_code_ = code; reason_phrase_ = [] }

abbrev pub new_request : Bytes → Request
new_request method = record {
  message = new_message;
  url_ = [];
  method_ = method;
  response_ready_ = false;
  initiated_response_ = false;
  response_ = new_response 65535;
  response_handlers_ = [];
  response_complete_handlers_ = [];
}

-- `set_body` with a stream and its length.
unfoldable pub set_body : ℕ → ℕ → Bytes → Message → Message × List Effect
unfolding print_size Headers.put Headers.set_content_type_if_not_present
set_body stream size type m = (
  record m {
    headers_ =
        Headers.set_content_type_if_not_present type
          (Headers.put (codes "Content-Length") (print_size size) m.headers_);
    instream_ = some stream;
    data_available_ = size;
    data_ready_handlers_ = [];
  },
  map sliced_data m.data_ready_handlers_,
)

unfoldable pub complete : ℕ → Message → Message × List Effect
complete body_size m = (
  record m { data_available_ = body_size },
  elim m.outstream_ [ none ↦ [] | some s ↦ close_stream s ∷ [] ],
)

unfoldable pub async_get_data_available : ℕ → Message → Message × List Effect
async_get_data_available op m =
    if m.data_available_ == 0
    then (record m { data_ready_handlers_ = m.data_ready_handlers_ ++ op ∷ [] }, [])
    else (m, data_ready op m.data_available_ ∷ [])

-- The loop of `reply_impl` over the table: the first phrase of the code, or the phrase as it was.
abbrev pub phrase_of : ℕ → Bytes → List (ℕ × Bytes) → Bytes
phrase_of code phrase [] = phrase
phrase_of code phrase ((id, p) ∷ ps) =
    let rest = phrase_of code phrase ps in if id == code then p else rest

unfoldable pub with_phrase : Response → Response
with_phrase r =
    if length r.reason_phrase_ == 0
    then record r { reason_phrase_ = phrase_of r.status_code_ r.reason_phrase_ phrases }
    else r

-- What a call on a request leaves: the request, the effects, and whether it threw.
pub record Outcome : Type 0 where
  pub after : Request
  pub effects : List Effect
  pub threw : Bool

unfoldable pub reply_impl : Response → Request → Outcome
unfolding with_phrase
reply_impl response q =
    if q.initiated_response_ then record { after = q; effects = []; threw = true } else record {
      after = record q {
        initiated_response_ = true;
        response_ = with_phrase response;
        response_ready_ = true;
        response_handlers_ = [];
      };
      effects = map sliced_response q.response_handlers_;
      threw = false;
    }

unfoldable pub reply : Response → ℕ → Request → Outcome
unfolding reply_impl
reply response op q =
    reply_impl response
      (record q { response_complete_handlers_ = q.response_complete_handlers_ ++ op ∷ [] })

unfoldable pub reply_if_not_already : ℕ → Request → Outcome
unfolding reply_impl
reply_if_not_already status q =
    if q.initiated_response_
    then record { after = q; effects = []; threw = false }
    else reply_impl (new_response status) q

unfoldable pub async_get_response : ℕ → Request → Outcome
async_get_response op q =
    if q.response_ready_
    then record { after = q; effects = response_ready op ∷ []; threw = false }
    else record {
      after = record q { response_handlers_ = q.response_handlers_ ++ op ∷ [] };
      effects = [];
      threw = false;
    }

unfoldable pub response_send_complete : ℕ → Request → Outcome
response_send_complete err q = record {
  after = record q { response_complete_handlers_ = [] };
  effects = map sliced_complete q.response_complete_handlers_;
  threw = false;
}
