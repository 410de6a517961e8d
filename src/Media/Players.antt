-- ===== src/Media/Players.antt =====
-- A player is made once for each name.
use snode.Prelude.{
  ℕ, ◌≡◌, refl, ap, ◌∙◌, Bool, true, false, ◌||◌, List, [], ◌∷◌, Option, none, some, Bytes, arith,
  if◌then◌else◌, Bool-cases, inl, inr, ◌⊎◌, same, same_iff,
}
use snode.Prelude.Maps.{lookup, assign, lookup-assign, text_eq}
use snode.Http.Helpers.{is_nil}
use snode.Services.Registry.{create_instance}
use snode.Media.{Player, Classes, Players, is_there, with_source, new_filter, new_player, create}

-- The arguments of a call of `create`.
abbrev pub Call : Type 0
Call = Bytes × Bytes × Bytes × Bytes

module _ (cs : Classes) where
  abbrev pub call : Call → Players → Option Player × Players
  call (name, source_type, filter_type, filter_opt) players =
      create cs name source_type filter_type filter_opt players

  -- The players after some calls.
  abbrev pub calls : List Call → Players → Players
  calls [] players = players
  calls (c ∷ rest) players = calls rest (call c players).1

  abbrev Result : Type 0
  Result = Option Player × Players

  if_keeps :
      (P : Players → Type 0) (b : Bool) (r t : Result)
      → P r.1
      → (b ≡ false → P t.1)
      → P (if b then r else t).1
  if_keeps P true r t p q = p
  if_keeps P false r t p q = q refl

  assign_keeps :
      (name q : Bytes) (new p : Player) (players : Players)
      → is_there cs (lookup name players) ≡ false
      → lookup q players ≡ some p
      → lookup q (assign name new players) ≡ some p
  assign_keeps name q new p players free h =
      lookup-assign q name new players ∙ other (Bool-cases (same name q))
    where
      other :
          (same name q ≡ true) ⊎ (same name q ≡ false)
          → (if same name q then some new else lookup q players) ≡ some p
      other (inl e) =
          let there : lookup name players ≡ some p =
            ap (λ n. lookup n players) ((same_iff name q).0 e) ∙ h in
          absurd (ground (arith, free, ap (is_there cs) there))
      other (inr e) = rw e h

  -- No call changes the player of a name.
  call_keeps :
      (c : Call) (q : Bytes) (p : Player) (players : Players)
      → lookup q players ≡ some p
      → lookup q (call c players).1 ≡ some p
  unfolding create
  call_keeps (name, source_type, filter_type, filter_opt) q p players h =
      if_keeps (λ ps. lookup q ps ≡ some p) (is_there cs (lookup name players)) _ _ h
        λ free.
          if_keeps (λ ps. lookup q ps ≡ some p) (is_nil name || is_nil source_type) _ _ h
            λ _. stored free (create_instance cs.make_source source_type cs.sources)
    where
      stored :
          is_there cs (lookup name players) ≡ false
          → (o : Option ℕ)
          → lookup q (with_source cs o name filter_type filter_opt players).1 ≡ some p
      stored free none = h
      stored free (some source) =
          assign_keeps name q (new_player cs name source (new_filter cs filter_type filter_opt)) p
            players free h

  calls_keep :
      (rest : List Call) (q : Bytes) (p : Player) (players : Players)
      → lookup q players ≡ some p
      → lookup q (calls rest players) ≡ some p
  calls_keep [] q p players h = h
  calls_keep (c ∷ rest) q p players h =
      calls_keep rest q p (call c players).1 (call_keeps c q p players h)

  if_made :
      (P : Result → Type 0) (b : Bool) (r t : Result)
      → (b ≡ true → P r)
      → (b ≡ false → P t)
      → P (if b then r else t)
  if_made P true r t p q = p refl
  if_made P false r t p q = q refl

  -- A player that is made is stored.
  create_stores :
      (name source_type filter_type filter_opt : Bytes) (players : Players) (p : Player)
      → (create cs name source_type filter_type filter_opt players).0 ≡ some p
      → lookup name (create cs name source_type filter_type filter_opt players).1 ≡ some p
  unfolding create
  create_stores name source_type filter_type filter_opt players p =
      if_made Stored (is_there cs (lookup name players)) _ _ (λ _ e. cc)
        λ _.
          if_made Stored (is_nil name || is_nil source_type) _ _ (λ _ e. cc)
            λ _. made (create_instance cs.make_source source_type cs.sources)
    where
      Stored : Result → Type 0
      Stored r = r.0 ≡ some p → lookup name r.1 ≡ some p

      made : (o : Option ℕ) → Stored (with_source cs o name filter_type filter_opt players)
      made none e = cc
      made (some source) e =
          lookup-assign name name (new_player cs name source (new_filter cs filter_type filter_opt))
            players
          ∙ rw ((same_iff name name).1 refl) (e)

  taken :
      (name source_type filter_type filter_opt : Bytes) (players : Players) (p : Player)
      → lookup name players ≡ some p
      → create cs name source_type filter_type filter_opt players ≡ (none, players)
  unfolding create
  taken name source_type filter_type filter_opt players p h = ground (arith, ap (is_there cs) h)

  -- Once create has made a player for a name, after any further calls of create that player is
  -- still the one of the name, and create makes no other for it.
  pub create_once :
      (name source_type filter_type filter_opt : Bytes) (players : Players) (p : Player)
      (rest : List Call) (s f o : Bytes)
      → (create cs name source_type filter_type filter_opt players).0 ≡ some p
      → (let players' = calls rest (create cs name source_type filter_type filter_opt players).1 in
          (lookup name players' ≡ some p) × (create cs name s f o players' ≡ (none, players')))
  create_once name source_type filter_type filter_opt players p rest s f o e =
      let now = create_stores name source_type filter_type filter_opt players p e in
      let players' = calls rest (create cs name source_type filter_type filter_opt players).1 in
      let later =
        calls_keep rest name p (create cs name source_type filter_type filter_opt players).1 now in
      (later, taken name s f o players' p later)
