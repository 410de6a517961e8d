-- ===== src/Http/Message/Laws.antt =====
-- Histories of the calls that the server and a request handler make on one request.
use snode.Prelude.{
  ℕ, ◌≡◌, refl, sym, ap, ◌∙◌, Bool, true, false, List, [], ◌∷◌, ◌++◌, Bytes, map, arith,
  append_assoc, append-nil, Option, none, some, if◌then◌else◌,
}
use snode.Http.Message.{
  Message, Response, Request, Effect, data_ready, response_ready, response_complete, close_stream,
  sliced_data, sliced_response, sliced_complete, Outcome, new_request, new_response, complete,
  async_get_data_available, reply_impl, reply, reply_if_not_already, async_get_response,
  response_send_complete,
}

pub data Op : Type 0 where
  get_response : ℕ → Op
  reply_with : Response → ℕ → Op
  reply_status : ℕ → Op
  send_complete : ℕ → Op
  content_ready : ℕ → Op
  body_complete : ℕ → Op

abbrev on_message : Request → Message × List Effect → Outcome
on_message q (m, effects) = record {
  after = record q { message = m };
  effects = effects;
  threw = false;
}

unfoldable pub step : Op → Request → Outcome
step (get_response op) q = async_get_response op q
step (reply_with response op) q = reply response op q
step (reply_status status) q = reply_if_not_already status q
step (send_complete err) q = response_send_complete err q
step (content_ready op) q = on_message q (async_get_data_available op q.message)
step (body_complete size) q = on_message q (complete size q.message)

-- The handlers that an operation registers for the response.
abbrev pub asks : Op → List ℕ
asks (get_response op) = op ∷ []
asks _ = []

-- The handlers that effects call with the response, in order.
abbrev pub called : List Effect → List ℕ
called [] = []
called (response_ready op ∷ es) = op ∷ called es
called (data_ready op n ∷ es) = called es
called (response_complete op err ∷ es) = called es
called (close_stream s ∷ es) = called es
called (sliced_data op ∷ es) = called es
called (sliced_response op ∷ es) = called es
called (sliced_complete op ∷ es) = called es

-- The handlers for the response that effects call, or that were sliced when they waited, in order.
abbrev pub reached : List Effect → List ℕ
reached [] = []
reached (response_ready op ∷ es) = op ∷ reached es
reached (data_ready op n ∷ es) = reached es
reached (response_complete op err ∷ es) = reached es
reached (close_stream s ∷ es) = reached es
reached (sliced_data op ∷ es) = reached es
reached (sliced_response op ∷ es) = op ∷ reached es
reached (sliced_complete op ∷ es) = reached es

pub data Run (start : Request) : List ℕ → List Effect → Request → Type 0 where
  here : Run start [] [] start
  next :
      {asked : List ℕ} {effects : List Effect} {q : Request}
      → Run start asked effects q
      → (o : Op) → Run start (asked ++ asks o) (effects ++ (step o q).effects) (step o q).after

-- A response is ready when it is initiated, and then no handler waits for it.
pub record IsValid (q : Request) : Type 0 where
  pub same : q.response_ready_ ≡ q.initiated_response_
  pub none_waits : q.response_ready_ ≡ true → q.response_handlers_ ≡ []

pub reached-append : (xs ys : List Effect) → reached (xs ++ ys) ≡ reached xs ++ reached ys
reached-append [] ys = refl
reached-append (response_ready op ∷ xs) ys = ap (◌∷◌ op) (reached-append xs ys)
reached-append (data_ready op n ∷ xs) ys = reached-append xs ys
reached-append (response_complete op err ∷ xs) ys = reached-append xs ys
reached-append (close_stream s ∷ xs) ys = reached-append xs ys
reached-append (sliced_data op ∷ xs) ys = reached-append xs ys
reached-append (sliced_response op ∷ xs) ys = ap (◌∷◌ op) (reached-append xs ys)
reached-append (sliced_complete op ∷ xs) ys = reached-append xs ys

reached-map : (ops : List ℕ) → reached (map sliced_response ops) ≡ ops
reached-map [] = refl
reached-map (op ∷ ops) = ap (◌∷◌ op) (reached-map ops)

pub reached_complete : (ops : List ℕ) → reached (map sliced_complete ops) ≡ []
reached_complete [] = refl
reached_complete (op ∷ ops) = reached_complete ops

-- What a step keeps: the invariant, the handlers, each waiting or reached, and a response that is there.
abbrev Keeps : Request → List ℕ → Outcome → Type 0
Keeps q asked r =
    IsValid r.after
    × (reached r.effects ++ r.after.response_handlers_ ≡ q.response_handlers_ ++ asked)
    × (q.response_ready_ ≡ true
        → (r.after.response_ ≡ q.response_) × (r.after.response_ready_ ≡ true))

Keeps-same :
    (q : Request) → IsValid q → Keeps q [] (record { after = q; effects = []; threw = false })
Keeps-same q v = (v, sym (append-nil q.response_handlers_), λ ready. (refl, ready))

-- The two branches of a test.
Keeps-if :
    (q : Request) (asked : List ℕ) (x y : Outcome) (b : Bool)
    → (b ≡ true → Keeps q asked x)
    → (b ≡ false → Keeps q asked y)
    → Keeps q asked (if b then x else y)
Keeps-if q asked x y true f g = f refl
Keeps-if q asked x y false f g = g refl

Keeps-message :
    (q : Request)
    → IsValid q
    → (m : Message) (effects : List Effect) → reached effects ≡ []
    → Keeps q [] (on_message q (m, effects))
Keeps-message q v m effects none_called = (
  record { same = v.same; none_waits = v.none_waits },
  ap (λ c. c ++ q.response_handlers_) none_called ∙ sym (append-nil q.response_handlers_),
  λ ready. (refl, ready),
)

reply_impl-Keeps : (r : Response) (q : Request) → IsValid q → Keeps q [] (reply_impl r q)
unfolding reply_impl
reply_impl-Keeps r q v =
    Keeps-if q [] _ _ q.initiated_response_
      (λ done. (v, sym (append-nil q.response_handlers_), λ ready. (refl, ready)))
      λ first. (
        record { same = refl; none_waits = λ _. refl },
        append-nil (reached (map sliced_response q.response_handlers_))
            ∙ reached-map q.response_handlers_
            ∙ sym (append-nil q.response_handlers_),
        λ ready. let e : true ≡ false = sym ready ∙ v.same ∙ first in (cc, cc),
      )

async_get_response-Keeps :
    (op : ℕ) (q : Request) → IsValid q → Keeps q (op ∷ []) (async_get_response op q)
unfolding async_get_response
async_get_response-Keeps op q v =
    Keeps-if q (op ∷ []) _ _ q.response_ready_
      (λ ready. (
        v,
        ap (◌∷◌ op) (v.none_waits ready) ∙ ap (λ hs. hs ++ op ∷ []) (sym (v.none_waits ready)),
        λ ready. (refl, ready),
      ))
      λ waits. (
        record {
          same = v.same;
          none_waits = λ ready. let e : true ≡ false = sym ready ∙ waits in cc;
        },
        refl,
        λ ready. (refl, ready),
      )

pub reached_data : (op : ℕ) (m : Message) → reached (async_get_data_available op m).1 ≡ []
unfolding async_get_data_available
reached_data op m = ground arith

pub reached_close : (size : ℕ) (m : Message) → reached (complete size m).1 ≡ []
unfolding complete
reached_close size m = by_stream m.outstream_
  where
    by_stream : (o : Option ℕ) → reached (elim o [ none ↦ [] | some s ↦ close_stream s ∷ [] ]) ≡ []
    by_stream none = refl
    by_stream (some s) = refl

-- A step that calls and registers handlers keeps each handler, waiting or reached once.
pub step-Keeps : (o : Op) (q : Request) → IsValid q → Keeps q (asks o) (step o q)
unfolding step reply reply_if_not_already response_send_complete
step-Keeps (get_response op) q v = async_get_response-Keeps op q v
step-Keeps (reply_with r op) q v =
    reply_impl-Keeps r
      (record q { response_complete_handlers_ = q.response_complete_handlers_ ++ op ∷ [] })
      (record { same = v.same; none_waits = v.none_waits })
step-Keeps (reply_status status) q v =
    Keeps-if q [] _ _ q.initiated_response_ (λ done. Keeps-same q v)
      λ first. reply_impl-Keeps (new_response status) q v
step-Keeps (send_complete err) q v = (
  record { same = v.same; none_waits = v.none_waits },
  ap (λ c. c ++ q.response_handlers_) (reached_complete q.response_complete_handlers_)
      ∙ sym (append-nil q.response_handlers_),
  λ ready. (refl, ready),
)
step-Keeps (content_ready op) q v =
    let r = async_get_data_available op q.message in
    Keeps-message q v r.0 r.1 (reached_data op q.message)
step-Keeps (body_complete size) q v =
    let r = complete size q.message in Keeps-message q v r.0 r.1 (reached_close size q.message)

-- Over any history of calls on a new request, each handler that asked for the response was reached
-- once, in the order of asking, or still waits, and none waits where the response is ready; one
-- that asked when the response was ready is called with it, and one that waited is reached through
-- what the queue kept of it, which is undefined.
pub Run-reaches :
    (method : Bytes) {asked : List ℕ} {effects : List Effect} {q : Request}
    → Run (new_request method) asked effects q
    → IsValid q × (reached effects ++ q.response_handlers_ ≡ asked)
Run-reaches method here = (record { same = refl; none_waits = λ _. refl }, refl)
Run-reaches method (next {asked} {effects} {q} run o) =
    let before = Run-reaches method run in
    let k = step-Keeps o q before.0 in
    (
      k.0,
      ap (λ c. c ++ (step o q).after.response_handlers_) (reached-append effects (step o q).effects)
          ∙ append_assoc (reached effects) (reached (step o q).effects)
              (step o q).after.response_handlers_
          ∙ ap (◌++◌ (reached effects)) k.1
          ∙ sym (append_assoc (reached effects) q.response_handlers_ (asks o))
          ∙ ap (λ c. c ++ asks o) before.1,
    )

-- Once the response of a well-formed request is ready, no later call changes it.
pub Run-keeps_response :
    {q q' : Request} {asked : List ℕ} {effects : List Effect}
    → IsValid q
    → q.response_ready_ ≡ true
    → Run q asked effects q'
    → IsValid q' × (q'.response_ ≡ q.response_) × (q'.response_ready_ ≡ true)
Run-keeps_response v ready here = (v, refl, ready)
Run-keeps_response v ready (next {q} run o) =
    let before = Run-keeps_response v ready run in
    let k = step-Keeps o q before.0 in let same = k.2 before.2 in (k.0, same.0 ∙ before.1, same.1)
