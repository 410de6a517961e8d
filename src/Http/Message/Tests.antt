-- ===== src/Http/Message/Tests.antt =====
-- Runs of a request, and the laws of its handlers at them.
use snode.Prelude.{◌≡◌, refl, true, List, [], ◌∷◌, ◌++◌, codes}
use snode.Http.Message.{
  Request, Effect, response_ready, sliced_response, new_request, new_response, reply_if_not_already,
  async_get_response, async_get_data_available, complete, print_size, with_phrase,
}
use snode.Http.Message.Laws.{
  get_response, reply_status, content_ready, body_complete, step, Run, here, next, IsValid, called,
  Run-keeps_response,
}
use snode.Http.Message.Lost.{lost, Run-answers}
use snode.Http.Message.Waiting.{Grows, waiting, Run-content_waits}

print_size_4096 : print_size 4096 ≡ codes "4096"
unfolding print_size
print_size_4096 = refl

not_found : (with_phrase (new_response 404)).reason_phrase_ ≡ codes "Not Found"
unfolding with_phrase
not_found = refl

abbrev fresh : Request
fresh = new_request (codes "GET")

abbrev asked_once : Request
asked_once = (step (get_response 7) fresh).after

abbrev replied : Request
replied = (step (reply_status 404) asked_once).after

abbrev asked_again : Request
asked_again = (step (get_response 8) replied).after

-- One handler asks before the reply and one after it.
abbrev two_called : List Effect
two_called = sliced_response 7 ∷ response_ready 8 ∷ []

two_asks : Run fresh (7 ∷ 8 ∷ []) two_called asked_again
unfolding step reply_if_not_already async_get_response
two_asks = next (next (next here (get_response 7)) (reply_status 404)) (get_response 8)

replied-IsValid : IsValid replied
unfolding step reply_if_not_already async_get_response
replied-IsValid = record { same = refl; none_waits = λ _. refl }

replied_ready : replied.response_ready_ ≡ true
unfolding step reply_if_not_already async_get_response
replied_ready = refl

ask_again : Run replied (8 ∷ []) (response_ready 8 ∷ []) asked_again
unfolding step async_get_response reply_if_not_already
ask_again = next here (get_response 8)

-- The server asks for the content of a request without a body, and completes it.
abbrev content_asked : Request
content_asked = (step (content_ready 3) fresh).after

abbrev completed : Request
completed = (step (body_complete 0) content_asked).after

no_body : Run content_asked [] [] completed
unfolding step complete async_get_data_available
no_body = next here (body_complete 0)

Run-answers_example :
    IsValid asked_again
    × (7 ∷ 8 ∷ [] ≡ (lost two_called ++ called two_called) ++ asked_again.response_handlers_)
Run-answers_example = Run-answers (codes "GET") two_asks

kept :
    IsValid asked_again
    × (asked_again.response_ ≡ replied.response_)
    × (asked_again.response_ready_ ≡ true)
kept = Run-keeps_response replied-IsValid replied_ready ask_again

still_waits : Grows (waiting content_asked) (waiting completed)
still_waits = Run-content_waits no_body
