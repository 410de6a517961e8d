-- ===== src/Media/Tests.antt =====
-- Two streams of one name.
use snode.Prelude.{◌≡◌, refl, true, false, [], ◌∷◌, none, some, codes, ◌==◌}
use snode.Prelude.Maps.{lookup, text_eq}
use snode.Services.Registry.{Registry}
use snode.Media.{Player, Classes, of_live_stream, play, create}
use snode.Media.Players.{calls, create_once}

abbrev registry : Registry
registry = (codes "live", 1) ∷ (codes "file", 2) ∷ []

abbrev classes : Classes
classes = record {
  sources = registry;
  filters = [];
  make_source = some;
  make_filter = some;
  opens_stream = λ source. source == 2;
  opens_live_stream = λ source. source == 1;
}

abbrev news : Player
news = record {
  name_ = codes "news";
  source_ = 1;
  filter_ = none;
  stream_open = false;
  live_open = true;
}

player_kept :
    let players =
      calls classes
        ((codes "news", codes "file", [], []) ∷ [])
        (create classes (codes "news") (codes "live") [] [] []).1 in
    (lookup (codes "news") players ≡ some news)
    × (create classes (codes "news") (codes "file") [] [] players ≡ (none, players))
unfolding create
player_kept =
    create_once classes (codes "news") (codes "live") [] [] [] news
      ((codes "news", codes "file", [], []) ∷ []) (codes "file") [] [] refl

live_first : play news ≡ of_live_stream
unfolding play
live_first = refl
