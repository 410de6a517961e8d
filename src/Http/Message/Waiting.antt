-- ===== src/Http/Message/Waiting.antt =====
-- The handlers that wait for the content of a request. The server ends the reading of a body by
-- `complete`, and of all operations only `set_body` calls these handlers.
use snode.Prelude.{
  ℕ, ◌≡◌, refl, sym, ap, ◌∙◌, true, false, Bool, List, [], ◌∷◌, ◌++◌, append_assoc, append-nil,
  if◌then◌else◌, ◌==◌,
}
use snode.Http.Message.{
  Message, Request, Response, Effect, Outcome, async_get_data_available, complete, reply_impl,
  reply, reply_if_not_already, async_get_response, response_send_complete, new_response,
}
use snode.Http.Message.Laws.{
  Op, get_response, reply_with, reply_status, send_complete, content_ready, body_complete, step,
  Run, here, next,
}

abbrev pub waiting : Request → List ℕ
waiting q = q.message.data_ready_handlers_

-- More handlers wait after `r`, behind those that waited before.
abbrev pub Grows : List ℕ → List ℕ → Type 0
Grows before after = (more : List ℕ) × (after ≡ before ++ more)

Grows-same : (ops : List ℕ) → Grows ops ops
Grows-same ops = ([], sym (append-nil ops))

Grows-if :
    (ops : List ℕ) (x y : Outcome) (b : Bool)
    → Grows ops (waiting x.after)
    → Grows ops (waiting y.after)
    → Grows ops (waiting (if b then x else y).after)
Grows-if ops x y true f g = f
Grows-if ops x y false f g = g

reply_impl-Grows : (r : Response) (q : Request) → Grows (waiting q) (waiting (reply_impl r q).after)
unfolding reply_impl
reply_impl-Grows r q =
    Grows-if (waiting q) _ _ q.initiated_response_ (Grows-same (waiting q)) (Grows-same (waiting q))

data-Grows :
    (op : ℕ) (m : Message)
    → Grows m.data_ready_handlers_ (async_get_data_available op m).0.data_ready_handlers_
unfolding async_get_data_available
data-Grows op m = by_test _ _ (m.data_available_ == 0)
  where
    asked : Message
    asked = record m { data_ready_handlers_ = m.data_ready_handlers_ ++ op ∷ [] }

    by_test :
        (x y : List Effect) (b : Bool)
        → let r : Message × List Effect = if b then (asked, x) else (m, y) in
          Grows m.data_ready_handlers_ r.0.data_ready_handlers_
    by_test x y true = (op ∷ [], refl)
    by_test x y false = Grows-same m.data_ready_handlers_

step-Grows : (o : Op) (q : Request) → Grows (waiting q) (waiting (step o q).after)
unfolding step reply reply_if_not_already response_send_complete complete async_get_response
step-Grows (get_response op) q =
    Grows-if (waiting q) _ _ q.response_ready_ (Grows-same (waiting q)) (Grows-same (waiting q))
step-Grows (reply_with r op) q =
    reply_impl-Grows r
      (record q { response_complete_handlers_ = q.response_complete_handlers_ ++ op ∷ [] })
step-Grows (reply_status status) q =
    Grows-if (waiting q) _ _ q.initiated_response_ (Grows-same (waiting q))
      (reply_impl-Grows (new_response status) q)
step-Grows (send_complete err) q = Grows-same (waiting q)
step-Grows (content_ready op) q = data-Grows op q.message
step-Grows (body_complete size) q = Grows-same (waiting q)

-- A handler that waits for the content of a request waits on through every history of calls
-- without set_body, whatever size complete reports.
pub Run-content_waits :
    {q q' : Request} {asked : List ℕ} {effects : List Effect}
    → Run q asked effects q'
    → Grows (waiting q) (waiting q')
Run-content_waits {q} here = Grows-same (waiting q)
Run-content_waits {q} (next {q = mid} run o) =
    let (more, before) = Run-content_waits run in
    let (more', now) = step-Grows o mid in
    (more ++ more', now ∙ ap (λ ops. ops ++ more') before ∙ append_assoc (waiting q) more more')
