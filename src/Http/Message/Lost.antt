-- ===== src/Http/Message/Lost.antt =====
-- Which of the handlers that asked for the response are called with it: a handler that waited was
-- sliced in the queue, and only one that asks when the response is ready is called itself.
use snode.Prelude.{
  ℕ, ◌≡◌, refl, sym, ap, ap₂, ◌∙◌, Bool, true, false, List, [], ◌∷◌, ◌++◌, Bytes, map, arith,
  append_assoc, append-nil, if◌then◌else◌,
}
use snode.Http.Message.{
  Response, Request, Effect, data_ready, response_ready, response_complete, close_stream,
  sliced_data, sliced_response, sliced_complete, Outcome, new_request, new_response, reply_impl,
  reply, reply_if_not_already, async_get_response, response_send_complete,
}
use snode.Http.Message.Laws.{
  Op, get_response, reply_with, reply_status, send_complete, content_ready, body_complete, step,
  called, reached, Run, here, next, IsValid, step-Keeps, Run-reaches, reached-append,
  reached_complete, reached_data, reached_close,
}

-- The handlers for the response that waited and are reached sliced.
abbrev pub lost : List Effect → List ℕ
lost [] = []
lost (sliced_response op ∷ es) = op ∷ lost es
lost (response_ready op ∷ es) = lost es
lost (data_ready op n ∷ es) = lost es
lost (response_complete op err ∷ es) = lost es
lost (close_stream s ∷ es) = lost es
lost (sliced_data op ∷ es) = lost es
lost (sliced_complete op ∷ es) = lost es

reached-lost : (es : List Effect) → called es ≡ [] → reached es ≡ lost es
reached-lost [] h = refl
reached-lost (sliced_response op ∷ es) h = ap (◌∷◌ op) (reached-lost es h)
reached-lost (response_ready op ∷ es) h = absurd (ground (arith, h))
reached-lost (data_ready op n ∷ es) h = reached-lost es h
reached-lost (response_complete op err ∷ es) h = reached-lost es h
reached-lost (close_stream s ∷ es) h = reached-lost es h
reached-lost (sliced_data op ∷ es) h = reached-lost es h
reached-lost (sliced_complete op ∷ es) h = reached-lost es h

reached-called : (es : List Effect) → lost es ≡ [] → reached es ≡ called es
reached-called [] h = refl
reached-called (sliced_response op ∷ es) h = absurd (ground (arith, h))
reached-called (response_ready op ∷ es) h = ap (◌∷◌ op) (reached-called es h)
reached-called (data_ready op n ∷ es) h = reached-called es h
reached-called (response_complete op err ∷ es) h = reached-called es h
reached-called (close_stream s ∷ es) h = reached-called es h
reached-called (sliced_data op ∷ es) h = reached-called es h
reached-called (sliced_complete op ∷ es) h = reached-called es h

none_reached : (es : List Effect) → reached es ≡ [] → (lost es ≡ []) × (called es ≡ [])
none_reached [] h = (refl, refl)
none_reached (sliced_response op ∷ es) h = absurd (ground (arith, h))
none_reached (response_ready op ∷ es) h = absurd (ground (arith, h))
none_reached (data_ready op n ∷ es) h = none_reached es h
none_reached (response_complete op err ∷ es) h = none_reached es h
none_reached (close_stream s ∷ es) h = none_reached es h
none_reached (sliced_data op ∷ es) h = none_reached es h
none_reached (sliced_complete op ∷ es) h = none_reached es h

lost-append : (xs ys : List Effect) → lost (xs ++ ys) ≡ lost xs ++ lost ys
lost-append [] ys = refl
lost-append (sliced_response op ∷ xs) ys = ap (◌∷◌ op) (lost-append xs ys)
lost-append (response_ready op ∷ xs) ys = lost-append xs ys
lost-append (data_ready op n ∷ xs) ys = lost-append xs ys
lost-append (response_complete op err ∷ xs) ys = lost-append xs ys
lost-append (close_stream s ∷ xs) ys = lost-append xs ys
lost-append (sliced_data op ∷ xs) ys = lost-append xs ys
lost-append (sliced_complete op ∷ xs) ys = lost-append xs ys

called-append : (xs ys : List Effect) → called (xs ++ ys) ≡ called xs ++ called ys
called-append [] ys = refl
called-append (sliced_response op ∷ xs) ys = called-append xs ys
called-append (response_ready op ∷ xs) ys = ap (◌∷◌ op) (called-append xs ys)
called-append (data_ready op n ∷ xs) ys = called-append xs ys
called-append (response_complete op err ∷ xs) ys = called-append xs ys
called-append (close_stream s ∷ xs) ys = called-append xs ys
called-append (sliced_data op ∷ xs) ys = called-append xs ys
called-append (sliced_complete op ∷ xs) ys = called-append xs ys

called_sliced : (ops : List ℕ) → called (map sliced_response ops) ≡ []
called_sliced [] = refl
called_sliced (op ∷ ops) = called_sliced ops

-- A step on a request whose response is ready slices no handler, and one on another calls none.
abbrev Sorts : Bool → Outcome → Type 0
Sorts true r = lost r.effects ≡ []
Sorts false r = called r.effects ≡ []

Sorts-none : (b : Bool) (r : Outcome) → reached r.effects ≡ [] → Sorts b r
Sorts-none true r h = (none_reached r.effects h).0
Sorts-none false r h = (none_reached r.effects h).1

Sorts-reply : (r : Response) (q : Request) → IsValid q → Sorts q.response_ready_ (reply_impl r q)
unfolding reply_impl
Sorts-reply r q v = by_ready q.response_ready_ q.initiated_response_ v.same
  where
    by_ready :
        (ready initiated : Bool)
        → ready ≡ initiated
        → Sorts ready (
            if initiated then record { after = q; effects = []; threw = true } else record {
              after = (reply_impl r (record q { initiated_response_ = false })).after;
              effects = map sliced_response q.response_handlers_;
              threw = false;
            })
    by_ready true true e = refl
    by_ready true false e = absurd (ground (arith, e))
    by_ready false true e = refl
    by_ready false false e = called_sliced q.response_handlers_

Sorts-if :
    (ready test : Bool) (x y : Outcome)
    → (test ≡ true → Sorts ready x)
    → (test ≡ false → Sorts ready y)
    → Sorts ready (if test then x else y)
Sorts-if ready true x y f g = f refl
Sorts-if ready false x y f g = g refl

Sorts-step : (o : Op) (q : Request) → IsValid q → Sorts q.response_ready_ (step o q)
unfolding step reply reply_if_not_already async_get_response response_send_complete
Sorts-step (get_response op) q v = by_ready q.response_ready_
  where
    by_ready :
        (ready : Bool)
        → Sorts ready (
            if ready
            then record { after = q; effects = response_ready op ∷ []; threw = false }
            else record {
              after = record q { response_handlers_ = q.response_handlers_ ++ op ∷ [] };
              effects = [];
              threw = false;
            })
    by_ready true = refl
    by_ready false = refl
Sorts-step (reply_with r op) q v =
    Sorts-reply r
      (record q { response_complete_handlers_ = q.response_complete_handlers_ ++ op ∷ [] })
      (record { same = v.same; none_waits = v.none_waits })
Sorts-step (reply_status status) q v =
    Sorts-if q.response_ready_ q.initiated_response_ _ _
      (λ done.
        Sorts-none q.response_ready_ (record { after = q; effects = []; threw = false }) refl)
      λ first. Sorts-reply (new_response status) q v
Sorts-step (send_complete err) q v =
    Sorts-none q.response_ready_ (step (send_complete err) q)
      (reached_complete q.response_complete_handlers_)
Sorts-step (content_ready op) q v =
    Sorts-none q.response_ready_ (step (content_ready op) q) (reached_data op q.message)
Sorts-step (body_complete size) q v =
    Sorts-none q.response_ready_ (step (body_complete size) q) (reached_close size q.message)

-- What the effects of a history are: first the handlers that waited, then those that are called.
abbrev Sorted : Bool → List Effect → Type 0
Sorted true es = reached es ≡ lost es ++ called es
Sorted false es = (reached es ≡ lost es) × (called es ≡ [])

Sorted-whole : (b : Bool) (es : List Effect) → Sorted b es → reached es ≡ lost es ++ called es
Sorted-whole true es h = h
Sorted-whole false es h = h.0 ∙ sym (ap (◌++◌ (lost es)) h.1 ∙ append-nil (lost es))

append-Sorted : (xs ys : List Effect) → Sorted false xs → called ys ≡ [] → Sorted false (xs ++ ys)
append-Sorted xs ys h s = (
  reached-append xs ys ∙ ap₂ ◌++◌ h.0 (reached-lost ys s) ∙ sym (lost-append xs ys),
  called-append xs ys ∙ ap₂ ◌++◌ h.1 s,
)

-- Behind a step with the response ready before or not, and after it or not.
Sorted-step :
    (before after : Bool) (xs : List Effect) (r : Outcome)
    → Sorted before xs
    → Sorts before r
    → (before ≡ true → after ≡ true)
    → Sorted after (xs ++ r.effects)
Sorted-step true true xs r h s keep =
    reached-append xs r.effects
    ∙ ap₂ ◌++◌ h (reached-called r.effects s)
    ∙ append_assoc (lost xs) (called xs) (called r.effects)
    ∙ sym (
        ap₂ ◌++◌ (lost-append xs r.effects ∙ ap (◌++◌ (lost xs)) s ∙ append-nil (lost xs))
          (called-append xs r.effects))
Sorted-step true false xs r h s keep = let e = keep refl in absurd (ground (arith, e))
Sorted-step false false xs r h s keep = append-Sorted xs r.effects h s
Sorted-step false true xs r h s keep =
    Sorted-whole false (xs ++ r.effects) (append-Sorted xs r.effects h s)

Run-Sorted :
    (method : Bytes) {asked : List ℕ} {effects : List Effect} {q : Request}
    → Run (new_request method) asked effects q
    → Sorted q.response_ready_ effects
Run-Sorted method here = (refl, refl)
Run-Sorted method (next {asked} {effects} {q} run o) =
    let v = (Run-reaches method run).0 in
    Sorted-step q.response_ready_ (step o q).after.response_ready_ effects (step o q)
      (Run-Sorted method run) (Sorts-step o q v) (λ ready. ((step-Keeps o q v).2 ready).1)

-- Over any history of calls on a new request, the handlers that asked for the response are, in the
-- order of asking, those that waited and were then reached only through what the queue had kept of
-- them, which is undefined; behind them those that were called with the response; and behind them
-- those that still wait, of which there are none where the response is ready.
pub Run-answers :
    (method : Bytes) {asked : List ℕ} {effects : List Effect} {q : Request}
    → Run (new_request method) asked effects q
    → IsValid q × (asked ≡ (lost effects ++ called effects) ++ q.response_handlers_)
Run-answers method {effects} {q} run =
    let r = Run-reaches method run in
    (
      r.0,
      sym r.1
          ∙ ap (λ es. es ++ q.response_handlers_)
              (Sorted-whole q.response_ready_ effects (Run-Sorted method run)),
    )
