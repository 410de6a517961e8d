-- ===== src/Http/Dispatch/Tests.antt =====
-- A request without body, and a handler for the root.
use snode.Prelude.{
  ℕ, ◌≡◌, refl, false, [], ◌∷◌, ◌++◌, Option, none, some, Bytes, codes, same, if◌then◌else◌,
}
use snode.Http.Compare.{icmp}
use snode.Http.Message.{Request, Outcome, new_request}
use snode.Http.Message.Laws.{here, called}
use snode.Http.Message.Waiting.{waiting, Grows}
use snode.Http.Dispatch.{response_op, data_op, locate, handle_response, body, body_reading}
use snode.Http.Dispatch.Answers.{IsFresh, locate_root, dispatched, no_body-unanswered}

abbrev get : Request
get = new_request (codes "GET")

get-IsFresh : IsFresh get
get-IsFresh = record { not_ready = refl; not_initiated = refl; none_waits = refl }

abbrev silent : ℕ → Request → Outcome
silent p q = record { after = q; effects = []; threw = false }

no_body-unanswered_example :
    (called (dispatched same same silent get).effects ≡ response_op false ∷ [])
    × ((dispatched same same silent get).after.response_.status_code_ ≡ 404)
    × ((handle_response false (dispatched same same silent get).after).1 ≡ false)
    × ((handle_response false (dispatched same same silent get).after).0.1 ≡ [])
    × Grows
        (waiting get ++ data_op ∷ [])
        (waiting (handle_response false (dispatched same same silent get).after).0.0)
unfolding body_reading
no_body-unanswered_example = no_body-unanswered same same silent get get-IsFresh refl here

abbrev handlers : Bytes → Option ℕ
handlers path = if same path (codes "/a/") then some 8 else none

-- The handler of "/a/" is not found for it.
root_only : locate handlers 2 (codes "a" ∷ codes "b" ∷ []) none ≡ handlers (codes "/")
root_only = locate_root handlers (codes "a" ∷ codes "b" ∷ []) none

posted : body_reading same same ((codes "Content-Length", codes "12") ∷ []) ≡ body 12
unfolding body_reading icmp
posted = refl
