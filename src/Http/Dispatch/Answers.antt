-- ===== src/Http/Dispatch/Answers.antt =====
-- Which requests are answered.
use mathlib.Core.Path.{subst}
use snode.Prelude.{
  ℕ, zero, suc, ◌≡◌, refl, ap, ◌∙◌, Bool, false, List, [], ◌∷◌, ◌++◌, Option, none, some, Bytes,
  codes, take, length, arith,
}
use snode.Http.Message.{
  Message, Request, Effect, Outcome, complete, reply_if_not_already, close_stream,
}
use snode.Http.Message.Laws.{Run, called}
use snode.Http.Message.Waiting.{waiting, Grows, Run-content_waits}
use snode.Uri.{split_path}
use snode.Http.Dispatch.{
  path_text, locate, get_req_handler, data_op, response_op, do_response, dispatch_to,
  dispatch_request_to_listener, handle_response, nothing, body_reading, behind_streams,
}

-- Whatever the table of handlers and the segments of the path, the loop over the paths ends with
-- what the table has for "/".
pub locate_root :
    (lookup : Bytes → Option ℕ) (segments : List Bytes) (p : Option ℕ)
    → locate lookup (length segments) segments p ≡ lookup (codes "/")
unfolding locate
locate_root lookup segments p = by_rounds (length segments) p
  where
    by_rounds : (i : ℕ) (p : Option ℕ) → locate lookup i segments p ≡ lookup (codes "/")
    by_rounds zero p = refl
    by_rounds (suc i) p = by_rounds i (lookup (path_text (take (suc i) segments)))

dispatch-nobody :
    (handle_request : ℕ → Request → Outcome) (q : Request)
    → dispatch_request_to_listener handle_request q ≡ dispatch_to handle_request none q
unfolding dispatch_request_to_listener
dispatch-nobody handle_request q =
    let segments = split_path q.url_ in
    ap (λ p. dispatch_to handle_request p q) (locate_root get_req_handler segments none)

-- A request that nothing has answered.
pub record IsFresh (q : Request) : Type 0 where
  pub not_ready : q.response_ready_ ≡ false
  pub not_initiated : q.initiated_response_ ≡ false
  pub none_waits : q.response_handlers_ ≡ []

refused :
    (handle_request : ℕ → Request → Outcome) (q : Request)
    → IsFresh q
    → (let o = dispatch_to handle_request none q in
        (called o.effects ≡ 0 ∷ [])
        × (o.after.response_.status_code_ ≡ 404)
        × (o.after.message ≡ q.message))
unfolding dispatch_to do_response reply_if_not_already
refused handle_request q f = rw (f.not_initiated, f.none_waits) (refl, refl, refl)

-- Without data the response waits for it.
response_waits :
    (q : Request)
    → q.message.data_available_ ≡ 0
    → (let ((q', effects), processed) = handle_response false q in
        (processed ≡ false) × (effects ≡ []) × (waiting q' ≡ waiting q ++ data_op ∷ []))
unfolding handle_response
response_waits q e = ground (arith, e)

-- Closing the stream calls no handler.
called_closing :
    (o : Option ℕ) (es : List Effect)
    → called ((elim o [ none ↦ [] | some s ↦ close_stream s ∷ [] ]) ++ es) ≡ called es
called_closing none es = refl
called_closing (some s) es = refl

no_body-waits :
    (iequals ifind_first : Bytes → Bytes → Bool) (handle_request : ℕ → Request → Outcome)
    (q : Request)
    → IsFresh q
    → body_reading iequals ifind_first q.message.headers_ ≡ nothing
    → (let o = (behind_streams iequals ifind_first handle_request q).1 in
        let ((q', effects), processed) = handle_response false o.after in
        (called o.effects ≡ 0 ∷ [])
        × (o.after.response_.status_code_ ≡ 404)
        × (processed ≡ false)
        × (effects ≡ [])
        × (waiting q' ≡ waiting q ++ data_op ∷ []))
unfolding behind_streams complete
no_body-waits iequals ifind_first handle_request q f n =
    let q' = record q { message = record q.message { data_available_ = 0 } } in
    let f' : IsFresh q' = record {
      not_ready = f.not_ready;
      not_initiated = f.not_initiated;
      none_waits = f.none_waits;
    } in
    let d = refused handle_request q' f' in
    let w =
      response_waits (dispatch_to handle_request none q').after
        (ap (λ (m : Message). m.data_available_) d.2) in
    rw (n, dispatch-nobody handle_request q')
      (
        called_closing q.message.outstream_ _ ∙ d.0,
        d.1,
        w.0,
        w.1,
        w.2 ∙ ap (λ (m : Message). m.data_ready_handlers_ ++ data_op ∷ []) d.2,
      )

module _ (iequals ifind_first : Bytes → Bytes → Bool) (handle_request : ℕ → Request → Outcome) where
  abbrev pub dispatched : Request → Outcome
  dispatched q = (behind_streams iequals ifind_first handle_request q).1

  -- For a request that nothing has answered and whose headers announce no body, behind the
  -- creation of its streams: it gets status 404 whatever the path, the call of handle_response is
  -- scheduled once, that call processes no response, and the handler that it leaves to wait for
  -- data waits on through every history of calls without set_body.
  pub no_body-unanswered :
      (q : Request) {q' : Request} {asked : List ℕ} {effects : List Effect}
      → IsFresh q
      → body_reading iequals ifind_first q.message.headers_ ≡ nothing
      → Run (handle_response false (dispatched q).after).0.0 asked effects q'
      → (called (dispatched q).effects ≡ response_op false ∷ [])
        × ((dispatched q).after.response_.status_code_ ≡ 404)
        × ((handle_response false (dispatched q).after).1 ≡ false)
        × ((handle_response false (dispatched q).after).0.1 ≡ [])
        × Grows (waiting q ++ data_op ∷ []) (waiting q')
  no_body-unanswered q {q'} f n run =
      let w = no_body-waits iequals ifind_first handle_request q f n in
      (w.0, w.1, w.2, w.3, subst (λ ops. Grows ops (waiting q')) w.4 (Run-content_waits run))
