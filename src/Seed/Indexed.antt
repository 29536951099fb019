-- ===== src/Seed/Indexed.antt =====
-- A validated manifest indexes every token of every market under that market and its side.
use oddsfox_pipeline.Base.{
  ◌*◌, ◌≤◌, String, List, [], ◌∷◌, some, false, ◌≡◌, refl, ◌∙◌, inl, inr, arith, ok, >>=-eq-ok,
  Bool-cases, length, All, str_eq, eq_iff, if◌then◌else◌, count, from_keys-distinct, string_eq,
  beq_refl,
}
use oddsfox_pipeline.Settlement.Types.{PolygonMarket, Outcome, yes_side, no_side}
use oddsfox_pipeline.Settlement.Index.{TokenIndex, lookup, insert, add_markets, by_token}
use oddsfox_pipeline.Settlement.Sides.{HasTwoTokens, IsSideIndex, by_token-IsSideIndex}
use oddsfox_pipeline.Seed.Inventory.{Inventory}
use oddsfox_pipeline.Seed.Manifest.{
  token_ids, insert_market, sort_markets, check_identities, validate_manifest, market_le,
}

count-insert_market :
    (t : String) (row : PolygonMarket) (rows : List PolygonMarket)
    → count t (token_ids (insert_market row rows)) ≡ count t (token_ids (row ∷ rows))
unfolding insert_market token_ids count
count-insert_market t row [] = refl
count-insert_market t row (next ∷ rows) = elim (Bool-cases (market_le row next)) [
  | inl first ↦ rw first refl
  | inr later ↦ rw later (omega (arith, count-insert_market t row rows))
]

count-sort_markets :
    (t : String) (rows : List PolygonMarket)
    → count t (token_ids (sort_markets rows)) ≡ count t (token_ids rows)
unfolding sort_markets token_ids count
count-sort_markets t [] = refl
count-sort_markets t (row ∷ rows) =
    count-insert_market t row (sort_markets rows) ∙ omega (arith, count-sort_markets t rows)

lookup-insert :
    (token key : String) (market : PolygonMarket) (outcome : Outcome) (index : TokenIndex)
    → lookup token (insert key market outcome index)
      ≡ (if str_eq key token then some (market, outcome) else lookup token index)
unfolding lookup insert
lookup-insert token key market outcome [] = refl
lookup-insert token key market outcome ((k, m, o) ∷ index) = ground (
  arith,
  lookup-insert token key market outcome index,
  eq_iff k key,
  eq_iff k token,
  eq_iff key token,
)

lookup-add_markets :
    (token : String) (index : TokenIndex) (markets : List PolygonMarket)
    → count token (token_ids markets) ≡ 0
    → lookup token (add_markets index markets) ≡ lookup token index
unfolding add_markets token_ids count
lookup-add_markets token index [] h = refl
lookup-add_markets token index (m ∷ markets) h =
    let index' = insert m.yes_token_id m yes_side index in
    let not_no : str_eq m.no_token_id token ≡ false = ground arith in
    let not_yes : str_eq m.yes_token_id token ≡ false = ground arith in
    lookup-add_markets token (insert m.no_token_id m no_side index') markets (ground arith)
    ∙ ground (
      arith,
      not_no,
      not_yes,
      lookup-insert token m.no_token_id m no_side index',
      lookup-insert token m.yes_token_id m yes_side index,
    )

-- The index gives the market's two tokens this market, each with its side.
pub record IsIndexed (index : TokenIndex) (market : PolygonMarket) : Type 0 where
  pub yes_indexed : lookup market.yes_token_id index ≡ some (market, yes_side)
  pub no_indexed : lookup market.no_token_id index ≡ some (market, no_side)

add_markets-IsIndexed :
    (index : TokenIndex) (markets : List PolygonMarket)
    → ((t : String) → count t (token_ids markets) ≤ 1)
    → All (IsIndexed (add_markets index markets)) markets × All HasTwoTokens markets
unfolding add_markets token_ids count
add_markets-IsIndexed index [] h = (tt, tt)
add_markets-IsIndexed index (m ∷ markets) h =
    let index' = insert m.yes_token_id m yes_side index in
    let all = insert m.no_token_id m no_side index' in
    let yes_alone = rw (beq_refl m.yes_token_id) at (h m.yes_token_id) in
    let no_alone = rw (beq_refl m.no_token_id) at (h m.no_token_id) in
    let different : str_eq m.no_token_id m.yes_token_id ≡ false = ground arith in
    let (rest, two) = add_markets-IsIndexed all markets (λ t. omega (arith, h t)) in
    (
      (
        record {
          yes_indexed =
              lookup-add_markets m.yes_token_id all markets (ground arith)
              ∙ lookup-insert m.yes_token_id m.no_token_id m no_side index'
              ∙ rw different (
                  lookup-insert m.yes_token_id m.yes_token_id m yes_side index
                  ∙ rw (beq_refl m.yes_token_id) refl);
          no_indexed =
              lookup-add_markets m.no_token_id all markets (ground arith)
              ∙ lookup-insert m.no_token_id m.no_token_id m no_side index'
              ∙ rw (beq_refl m.no_token_id) refl;
        },
        rest,
      ),
      ((λ e. ground (arith, eq_iff m.no_token_id m.yes_token_id)), two),
    )

length-token_ids : (rows : List PolygonMarket) → length (token_ids rows) ≡ 2 * length rows
unfolding token_ids
length-token_ids [] = omega arith
length-token_ids (row ∷ rows) = omega (arith, length-token_ids rows)

check_identities-distinct :
    (inv : Inventory) (rows : List PolygonMarket)
    → inv.tokens ≡ 2 * inv.propositions
    → check_identities inv rows ≡ ok tt
    → (t : String) → count t (token_ids rows) ≤ 1
unfolding check_identities
check_identities-distinct inv rows two h t =
    from_keys-distinct t (token_ids rows) (ground (arith, length-token_ids rows))

module _ (content_sha256 : List PolygonMarket → String) where
  -- For an inventory of two tokens a proposition, a manifest that was accepted is the sorted rows,
  -- and its index gives each of the two tokens of each market this market with the token's side.
  pub validate_manifest-IsIndexed :
      (inv : Inventory) (rows markets : List PolygonMarket)
      → inv.tokens ≡ 2 * inv.propositions
      → validate_manifest content_sha256 inv rows ≡ ok markets
      → (markets ≡ sort_markets rows)
        × All (IsIndexed (by_token markets)) markets
        × IsSideIndex (by_token markets)
  unfolding validate_manifest by_token
  validate_manifest-IsIndexed inv rows markets two h =
      let (u, identities, checked) = >>=-eq-ok (check_identities inv rows) _ h in
      let sorted : markets ≡ sort_markets rows = ground arith in
      let distinct = check_identities-distinct inv rows two identities in
      let (indexed, different) =
        add_markets-IsIndexed [] (sort_markets rows)
          λ t. omega (arith, count-sort_markets t rows, distinct t) in
      (sorted, rw sorted indexed, rw sorted (by_token-IsSideIndex (sort_markets rows) different))
