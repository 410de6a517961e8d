-- ===== src/Media.antt =====
-- `media_player` and `player_factory` of src/media/media_player.cpp. Sources and filters are objects of
-- classes that are registered elsewhere: a number, with the streams of a source that are open. `seek`,
-- `record`, `pause` and `stop` do nothing in the source.
pub mod Players
mod Tests
use snode.Prelude.{
  ℕ, Bool, true, false, not, ◌&&◌, ◌||◌, List, [], ◌∷◌, Option, none, some, Bytes, if◌then◌else◌,
}
use snode.Prelude.Maps.{lookup, assign, text_eq}
use snode.Http.Helpers.{is_nil}
use snode.Services.Registry.{Registry, create_instance}

-- `stream_` and `streamlive_` are open or not; a filter keeps the option that was set.
pub record Player : Type 0 where
  pub name_ : Bytes
  pub source_ : ℕ
  pub filter_ : Option (ℕ × Bytes)
  pub stream_open : Bool
  pub live_open : Bool

-- An asynchronous read of 16 KB into the player's buffer, whose handler is `read_handler` or
-- `read_handler_live`.
pub data Reading : Type 0 where
  of_stream of_live_stream nothing : Reading

unfoldable pub play : Player → Reading
play p = if p.stream_open then of_stream else if p.live_open then of_live_stream else nothing

-- What was read is not looked at.
unfoldable pub read_handler : ℕ → Reading
read_handler count = of_stream

unfoldable pub read_handler_live : ℕ → Reading
read_handler_live count = of_live_stream

-- What the classes make, and which streams of a source can be opened.
pub record Classes : Type 0 where
  pub sources : Registry
  pub filters : Registry
  pub make_source : ℕ → Option ℕ
  pub make_filter : ℕ → Option ℕ
  pub opens_stream : ℕ → Bool
  pub opens_live_stream : ℕ → Bool

abbrev pub Players : Type 0
Players = List (Bytes × Player)

module _ (cs : Classes) where
  -- `filter_opt` is set on the filter, if the class is there.
  abbrev pub with_option : Bytes → Option ℕ → Option (ℕ × Bytes)
  with_option filter_opt none = none
  with_option filter_opt (some filter) = some (filter, filter_opt)

  unfoldable pub new_filter : Bytes → Bytes → Option (ℕ × Bytes)
  unfolding create_instance
  new_filter filter_type filter_opt =
      if not (is_nil filter_type) && not (is_nil filter_opt)
      then with_option filter_opt (create_instance cs.make_filter filter_type cs.filters)
      else none

  unfoldable pub new_player : Bytes → ℕ → Option (ℕ × Bytes) → Player
  new_player name source filter = record {
    name_ = name;
    source_ = source;
    filter_ = filter;
    stream_open = cs.opens_stream source;
    live_open = cs.opens_live_stream source;
  }

  -- Behind the creation of the source.
  abbrev pub with_source : Option ℕ → Bytes → Bytes → Bytes → Players → Option Player × Players
  with_source none name filter_type filter_opt players = (none, players)
  with_source (some source) name filter_type filter_opt players =
      let p = new_player name source (new_filter filter_type filter_opt) in
      (some p, assign name p players)

  abbrev pub is_there : Option Player → Bool
  is_there none = false
  is_there (some p) = true

  unfoldable pub create : Bytes → Bytes → Bytes → Bytes → Players → Option Player × Players
  unfolding lookup assign new_filter new_player create_instance
  create name source_type filter_type filter_opt players =
      if is_there (lookup name players)
      then (none, players)
      else if is_nil name || is_nil source_type
      then (none, players)
      else with_source (create_instance cs.make_source source_type cs.sources) name filter_type
          filter_opt players
