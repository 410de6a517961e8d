-- ===== src/Services/Config/Prefix.antt =====
-- What is read before the first element that cannot be read.
use snode.Prelude.{
  ◌≡◌, refl, ap, ap₂, ◌∙◌, List, [], ◌∷◌, ◌++◌, map, Option, none, some, Bytes, codes, arith,
}
use snode.Services.Config.{
  Result, ok, threw, read_each, PropertyTree, Config, new_config, read_stream, read_service,
  read_streams, read_services, init, or_error, streams_read, services_read, MediaConfig,
  NetServiceConfig,
}

-- What stopped the loop: nothing, or what reading the first element left throws.
abbrev pub Stops : {A B : Type 0} → (A → Result B) → List A → Option Bytes → Type 0
Stops f [] what = what ≡ none
Stops f (x ∷ xs) what = (w : Bytes) × (f x ≡ threw w) × (what ≡ some w)

abbrev pub Reads : {A B : Type 0} → (A → Result B) → List A → List B → Option Bytes → Type 0
Reads {A} f xs ys what =
    (front back : List A) × (xs ≡ front ++ back) × (map f front ≡ map ok ys) × Stops f back what

-- One round, from the result of the first element and what is read behind it.
Reads-step :
    {A B : Type 0} (f : A → Result B) (x : A) (xs : List A) (ys : List B) (what : Option Bytes)
    (r : Result B)
    → f x ≡ r
    → Reads f xs ys what
    → (let p : List B × Option Bytes = elim r [ ok b ↦ (b ∷ ys, what) | threw w ↦ ([], some w) ] in
        Reads f (x ∷ xs) p.0 p.1)
Reads-step f x xs ys what (ok b) e (front, back, split, read, stops) =
    (x ∷ front, back, ap (◌∷◌ x) split, ap₂ ◌∷◌ e read, stops)
Reads-step f x xs ys what (threw w) e _ = ([], x ∷ xs, refl, refl, (w, e, refl))

read_each-Reads :
    {A B : Type 0} (f : A → Result B) (xs : List A)
    → Reads f xs (read_each f xs).0 (read_each f xs).1
unfolding read_each
read_each-Reads f [] = ([], [], refl, refl, refl)
read_each-Reads f (x ∷ xs) =
    Reads-step f x xs (read_each f xs).0 (read_each f xs).1 (f x) refl (read_each-Reads f xs)

-- What an error tells: the services come last, and there must be a stream.
abbrev pub error_of : Option Bytes → Option Bytes → List MediaConfig → Option Bytes
error_of (some w) what streams = some w
error_of none (some w) streams = some w
error_of none none [] = some (codes "No streams defined")
error_of none none (s ∷ streams) = none

module _ (pt : PropertyTree) where
  open pt use {Tree, children, get_child, read_xml}

  abbrev opened : Tree → Config pt
  opened t = record (new_config pt) { ptree_ = t }

  with_streams : Tree → List MediaConfig × Option Bytes → Config pt
  with_streams t (ys, what) = record (opened t) { streams_ = ys; err_ = error_of none what ys }

  streams_read_lem :
      (t : Tree) (p : List MediaConfig × Option Bytes)
      → streams_read pt (opened t) p ≡ with_streams t p
  unfolding with_streams
  streams_read_lem t (ys, some w) = refl
  streams_read_lem t ([], none) = refl
  streams_read_lem t (y ∷ ys, none) = ground arith

  -- Behind both loops.
  finish : Tree → List MediaConfig × Option Bytes → List NetServiceConfig × Option Bytes → Config pt
  finish t (ys, what) (zs, what') = record (opened t) {
    streams_ = ys;
    services_ = zs;
    err_ = error_of what' what ys;
  }

  services_read_lem :
      (t : Tree) (p : List MediaConfig × Option Bytes) (q : List NetServiceConfig × Option Bytes)
      → services_read pt (with_streams t p) q ≡ finish t p q
  unfolding with_streams finish
  services_read_lem t (ys, what) (zs, none) = refl
  services_read_lem t (ys, what) (zs, some w) = refl

  init-finish :
      (filepath : Bytes) (t streams services : Tree)
      → read_xml filepath ≡ ok t
      → get_child (codes "streams") t ≡ ok streams
      → get_child (codes "services") t ≡ ok services
      → init pt filepath (new_config pt)
        ≡ finish t
            (read_each (read_stream pt) (children streams))
            (read_each (read_service pt) (children services))
  unfolding init with_streams
  init-finish filepath t streams services e f g =
      let p = read_each (read_stream pt) (children streams) in
      let q = read_each (read_service pt) (children services) in
      ap (λ r. or_error pt r (λ t'. read_services pt (read_streams pt (opened t'))) (new_config pt))
        e
      ∙ ap
          (λ r. read_services pt (
            or_error pt r
              (λ s. streams_read pt (opened t) (read_each (read_stream pt) (children s)))
              (opened t)))
          f
      ∙ ap (read_services pt) (streams_read_lem t p)
      ∙ ap
          (λ r.
            or_error pt r
              (λ s. services_read pt (with_streams t p) (read_each (read_service pt) (children s)))
              (with_streams t p))
          g
      ∙ services_read_lem t p q

  -- Where the file can be read and has the sections streams and services, init reads of each
  -- section the elements in order up to the first that throws, and the error of the configuration
  -- is that of the services, or else that of the streams, or else that no stream is there; without
  -- any of these there is no error.
  pub init-Reads :
      (filepath : Bytes) (t streams services : Tree)
      → read_xml filepath ≡ ok t
      → get_child (codes "streams") t ≡ ok streams
      → get_child (codes "services") t ≡ ok services
      → (let c = init pt filepath (new_config pt) in
          (what what' : Option Bytes) × Reads (read_stream pt) (children streams) c.streams_ what
          × Reads (read_service pt) (children services) c.services_ what'
          × (c.err_ ≡ error_of what' what c.streams_))
  unfolding finish
  init-Reads filepath t streams services e f g =
      rw (init-finish filepath t streams services e f g) (
        (read_each (read_stream pt) (children streams)).1,
        (read_each (read_service pt) (children services)).1,
        read_each-Reads (read_stream pt) (children streams),
        read_each-Reads (read_service pt) (children services),
        refl,
      )
