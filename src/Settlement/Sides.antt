-- ===== src/Settlement/Sides.antt =====
-- The token index of a manifest maps each token to a market that it is a side of.
use oddsfox_pipeline.Base.{
  String, List, [], ◌∷◌, Option, none, some, ◌≡◌, ◌≢◌, refl, inl, inr, All, Bool-cases, str_eq,
  eq_iff,
}
use mathlib.Core.Path.{subst}
use mathlib.Core.Option.{some-injective}
use oddsfox_pipeline.Settlement.Types.{PolygonMarket, Outcome, yes_side, no_side}
use oddsfox_pipeline.Settlement.Index.{
  TokenIndex, lookup, insert, add_markets, by_token, effective_index,
}
use oddsfox_pipeline.Settlement.Segment.{complement_token}

abbrev pub side_token : PolygonMarket → Outcome → String
side_token market yes_side = market.yes_token_id
side_token market no_side = market.no_token_id

-- The two outcome tokens of a market differ.
abbrev pub HasTwoTokens : PolygonMarket → Type 0
HasTwoTokens market = market.yes_token_id ≢ market.no_token_id

abbrev pub IsSideEntry : String × PolygonMarket × Outcome → Type 0
IsSideEntry (token, market, outcome) = (side_token market outcome ≡ token) × HasTwoTokens market

abbrev pub IsSideIndex : TokenIndex → Type 0
IsSideIndex = All IsSideEntry

pub lookup-IsSideEntry :
    (token : String) (index : TokenIndex) (market : PolygonMarket) (outcome : Outcome)
    → IsSideIndex index
    → lookup token index ≡ some (market, outcome)
    → IsSideEntry (token, market, outcome)
unfolding lookup
lookup-IsSideEntry token [] market outcome h e = cc
lookup-IsSideEntry token ((key, m, o) ∷ index) market outcome h e =
    elim (Bool-cases (str_eq key token)) [
      | inl same ↦
          subst (λ (p : PolygonMarket × Outcome). IsSideEntry (token, p.0, p.1))
            (some-injective _ _ (rw same at e))
            (subst (λ (k : String). IsSideEntry (k, m, o)) ((eq_iff key token).0 same) h.0)
      | inr other ↦ lookup-IsSideEntry token index market outcome h.1 (rw other at e)
    ]

pub complement-ne :
    (token : String) (market : PolygonMarket) (outcome : Outcome)
    → IsSideEntry (token, market, outcome)
    → complement_token market outcome ≢ token
complement-ne token market yes_side h e = h.1 (cc (h.0))
complement-ne token market no_side h e = h.1 (cc (h.0))

insert-IsSideIndex :
    (token : String) (market : PolygonMarket) (outcome : Outcome) (index : TokenIndex)
    → IsSideEntry (token, market, outcome)
    → IsSideIndex index
    → IsSideIndex (insert token market outcome index)
unfolding insert
insert-IsSideIndex token market outcome [] e h = (e, tt)
insert-IsSideIndex token market outcome ((key, m, o) ∷ index) e h =
    elim (Bool-cases (str_eq key token)) [
      | inl same ↦ rw same (e, h.1)
      | inr other ↦ rw other (h.0, insert-IsSideIndex token market outcome index e h.1)
    ]

add_markets-IsSideIndex :
    (markets : List PolygonMarket) (index : TokenIndex)
    → All HasTwoTokens markets
    → IsSideIndex index
    → IsSideIndex (add_markets index markets)
unfolding add_markets
add_markets-IsSideIndex [] index d h = h
add_markets-IsSideIndex (market ∷ markets) index d h = add_markets-IsSideIndex markets _ d.1 (
    insert-IsSideIndex market.no_token_id market no_side _ (refl, d.0)
      (insert-IsSideIndex market.yes_token_id market yes_side index (refl, d.0) h))

-- A manifest whose markets have two different tokens each indexes every token under its own side.
pub by_token-IsSideIndex :
    (markets : List PolygonMarket) → All HasTwoTokens markets → IsSideIndex (by_token markets)
unfolding by_token
by_token-IsSideIndex markets d = add_markets-IsSideIndex markets [] d tt

-- The index that the normalizer reads, `token_index or manifest.by_token`, inherits it.
pub effective_index-IsSideIndex :
    (token_index : Option TokenIndex) (markets : List PolygonMarket)
    → ((index : TokenIndex) → token_index ≡ some index → IsSideIndex index)
    → All HasTwoTokens markets
    → IsSideIndex (effective_index token_index markets)
unfolding effective_index
effective_index-IsSideIndex none markets g d = by_token-IsSideIndex markets d
effective_index-IsSideIndex (some []) markets g d = by_token-IsSideIndex markets d
effective_index-IsSideIndex (some (e ∷ index)) markets g d = g (e ∷ index) refl
