-- ===== src/Settlement/Index.antt =====
-- `PolygonMarketManifest.by_token` (polygon_seed.py): a dict from token ids to a market and the side
-- that the token stands for.
use oddsfox_pipeline.Base.{String, List, [], ◌∷◌, Option, none, some, str_eq, if◌then◌else◌}
use oddsfox_pipeline.Settlement.Types.{PolygonMarket, Outcome, yes_side, no_side}

abbrev pub TokenIndex : Type 0
TokenIndex = List (String × PolygonMarket × Outcome)

-- `index.get(token)`.
unfoldable pub lookup : String → TokenIndex → Option (PolygonMarket × Outcome)
lookup token [] = none
lookup token ((key, market, outcome) ∷ index) =
    if str_eq key token then some (market, outcome) else lookup token index

-- `index[token] = (market, outcome)`: a repeated key keeps its place and takes the new value.
unfoldable pub insert : String → PolygonMarket → Outcome → TokenIndex → TokenIndex
insert token market outcome [] = (token, market, outcome) ∷ []
insert token market outcome ((key, m, o) ∷ index) =
    if str_eq key token
    then (token, market, outcome) ∷ index
    else (key, m, o) ∷ insert token market outcome index

unfoldable pub add_markets : TokenIndex → List PolygonMarket → TokenIndex
add_markets index [] = index
add_markets index (market ∷ markets) =
    add_markets
      (insert market.no_token_id market no_side (insert market.yes_token_id market yes_side index))
      markets

unfoldable pub by_token : List PolygonMarket → TokenIndex
unfolding add_markets
by_token markets = add_markets [] markets

-- `token_index or manifest.by_token`: an empty mapping is falsy too.
unfoldable pub effective_index : Option TokenIndex → List PolygonMarket → TokenIndex
effective_index none markets = by_token markets
effective_index (some []) markets = by_token markets
effective_index (some (e ∷ index)) markets = e ∷ index
