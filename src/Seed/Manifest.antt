-- ===== src/Seed/Manifest.antt =====
-- `validate_polygon_market_manifest` of polygon_seed.py. `content_sha256` stands for
-- `polygon_manifest_content_sha256`, a digest of the rows.
use oddsfox_pipeline.Base.{
  ℕ, String, List, [], ◌∷◌, map, Option, none, some, Bool, true, false, not, ◌&&◌, ◌||◌, Result, ok,
  err, ◌>>=◌, ◌>>◌, raise_if, ltb, leb, ◌==◌, str_eq, if◌then◌else◌, length, codes, contains, count,
  from_keys, set_size, string_eq, nat_eq, pair_eq,
}
use oddsfox_pipeline.Settlement.Types.{PolygonMarket}
use oddsfox_pipeline.Settlement.Segment.{casefold, codes_eq}
use oddsfox_pipeline.Seed.Inventory.{
  Inventory, standard_v2_exchange, neg_risk_v2_exchange, group_types, SeedError,
  wrong_proposition_count, repeated_proposition, repeated_condition, wrong_token_count,
  repeated_condition_locator, repeated_question_locator, wrong_match_ids, wrong_stage_distribution,
  several_bundles, several_tables, several_reviews, group_exchange, knockout_exchange,
  inconsistent_fixture, group_propositions, knockout_proposition, several_versions, undeclared_hash,
  hash_mismatch,
}

abbrev pub proposition_ids : List PolygonMarket → List String
proposition_ids = map (λ (row : PolygonMarket). row.proposition_id)

abbrev pub condition_ids : List PolygonMarket → List String
condition_ids = map (λ (row : PolygonMarket). row.condition_id)

unfoldable pub token_ids : List PolygonMarket → List String
token_ids [] = []
token_ids (row ∷ rows) = row.yes_token_id ∷ row.no_token_id ∷ token_ids rows

-- The sets of identities that have to be as large as expected.
unfoldable pub check_identities : Inventory → List PolygonMarket → Result SeedError (Unit {0})
check_identities inv rows = do
  raise_if (not (length rows == inv.propositions)) wrong_proposition_count
  raise_if (not (set_size {A = String} ((proposition_ids rows)) == inv.propositions))
      repeated_proposition
  raise_if (not (set_size {A = String} ((condition_ids rows)) == inv.propositions))
      repeated_condition
  raise_if (not (set_size {A = String} ((token_ids rows)) == inv.tokens)) wrong_token_count
  raise_if
      (not (
        set_size {A = String × ℕ} (
          (map (λ (row : PolygonMarket). (row.condition_init_tx_hash, row.condition_init_log_index))
            rows))
        == inv.propositions))
      repeated_condition_locator
  raise_if
      (not (
        set_size {A = String × ℕ} (
          (map (λ (row : PolygonMarket). (row.question_init_tx_hash, row.question_init_log_index))
            rows))
        == inv.propositions))
      repeated_question_locator

-- `by_match[match_id]`, and the keys of `by_match` in the order of their insertion.
unfoldable pub match_rows : ℕ → List PolygonMarket → List PolygonMarket
match_rows match_id [] = []
match_rows match_id (row ∷ rows) =
    let rest = match_rows match_id rows in
    if row.fifa_match_id == match_id then row ∷ rest else rest

abbrev pub match_ids : List PolygonMarket → List ℕ
match_ids rows = from_keys (map (λ (row : PolygonMarket). row.fifa_match_id) rows)

unfoldable pub all_between : ℕ → ℕ → List ℕ → Bool
all_between low high [] = true
all_between low high (n ∷ ns) = leb low n && leb n high && all_between low high ns

-- `set(by_match) == set(range(1, games + 1))`: the keys are distinct, within the range, and as many.
abbrev pub exactly_up_to : ℕ → List ℕ → Bool
exactly_up_to games ids = all_between 1 games ids && length ids == games

abbrev pub first_stage : List PolygonMarket → String
first_stage [] = ""
first_stage (row ∷ rows) = row.stage

abbrev pub stages : List PolygonMarket → List String
stages rows = map (λ match_id. first_stage (match_rows match_id rows)) (match_ids rows)

unfoldable pub counts_agree : List (String × ℕ) → List String → Bool
counts_agree [] found = true
counts_agree ((stage, n) ∷ expected) found = count stage found == n && counts_agree expected found

unfoldable pub all_known : List String → List String → Bool
all_known names [] = true
all_known names (stage ∷ found) = contains stage names && all_known names found

-- `Counter(found) == expected`
abbrev pub same_counter : List (String × ℕ) → List String → Bool
same_counter expected found =
    counts_agree expected found && all_known (map (λ (p : String × ℕ). p.0) expected) found

abbrev pub same_address : String → String → Bool
same_address a b = codes_eq (casefold a) (casefold b)

unfoldable pub group_uses_neg_risk : List PolygonMarket → Bool
group_uses_neg_risk [] = true
group_uses_neg_risk (row ∷ rows) =
    (not (str_eq row.stage "group_stage")
      || (str_eq row.market_structure "neg_risk"
          && same_address row.exchange_address neg_risk_v2_exchange))
    && group_uses_neg_risk rows

unfoldable pub knockout_uses_standard : List PolygonMarket → Bool
knockout_uses_standard [] = true
knockout_uses_standard (row ∷ rows) =
    (str_eq row.stage "group_stage"
      || (str_eq row.market_structure "standard"
          && same_address row.exchange_address standard_v2_exchange))
    && knockout_uses_standard rows

unfoldable pub check_matches : Inventory → List PolygonMarket → Result SeedError (Unit {0})
unfolding match_rows all_between counts_agree all_known group_uses_neg_risk knockout_uses_standard
check_matches inv rows = do
  raise_if (not (exactly_up_to inv.games (match_ids rows))) wrong_match_ids
  raise_if (not (same_counter inv.stage_counts (stages rows))) wrong_stage_distribution
  raise_if
      (not (
        set_size {A = String} ((map (λ (row : PolygonMarket). row.reference_bundle_id) rows)) == 1))
      several_bundles
  raise_if
      (not (set_size {A = String} ((map (λ (row : PolygonMarket). row.reference_table) rows)) == 1))
      several_tables
  raise_if (not (set_size {A = ℕ} ((map (λ (row : PolygonMarket). row.reviewed_at_utc) rows)) == 1))
      several_reviews
  raise_if (not (group_uses_neg_risk rows)) group_exchange
  raise_if (not (knockout_uses_standard rows)) knockout_exchange

abbrev pub same_label : Option String → Option String → Bool
same_label none none = true
same_label (some a) (some b) = str_eq a b
same_label _ _ = false

-- The `fixture_fields` of two rows.
abbrev pub same_fixture : PolygonMarket → PolygonMarket → Bool
same_fixture row first =
    str_eq row.stage first.stage
    && same_label row.group_label first.group_label
    && str_eq row.home_team first.home_team
    && str_eq row.away_team first.away_team
    && row.kickoff_at_utc == first.kickoff_at_utc
    && row.window_start_at_utc == first.window_start_at_utc
    && row.window_end_at_utc == first.window_end_at_utc
    && str_eq row.reference_bundle_id first.reference_bundle_id
    && str_eq row.reference_table first.reference_table
    && str_eq row.reference_row_key first.reference_row_key
    && str_eq row.reference_row_sha256 first.reference_row_sha256

unfoldable pub all_same_fixture : List PolygonMarket → PolygonMarket → Bool
all_same_fixture [] first = true
all_same_fixture (row ∷ rows) first = same_fixture row first && all_same_fixture rows first

-- The set of the texts is that of the names, which differ from each other.
abbrev pub same_set : List String → List String → Bool
same_set texts names = all_known names texts && set_size {A = String} texts == length names

-- `not first.group_label`
abbrev pub no_label : Option String → Bool
no_label none = true
no_label (some label) = str_eq label ""

abbrev pub knockout_type : Inventory → ℕ → String
knockout_type inv match_id =
    if match_id == inv.third_place_match
    then "home_win_third_place"
    else if match_id == inv.final_match
    then "home_wins_final"
    else "home_advances"

-- The checks of one match; `by_match` has no empty entry.
unfoldable pub check_match : Inventory → ℕ → List PolygonMarket → Result SeedError (Unit {0})
unfolding all_same_fixture all_known
check_match inv match_id [] = ok tt
check_match inv match_id (first ∷ rest) = do
  let types = map (λ (row : PolygonMarket). row.proposition_type) (first ∷ rest)
  raise_if (not (all_same_fixture rest first)) inconsistent_fixture
  (if leb match_id inv.group_matches
      then raise_if
          (not (
            length (first ∷ rest) == 3
            && same_set types group_types
            && not (no_label first.group_label)))
          group_propositions
      else raise_if
          (not (
            length (first ∷ rest) == 1
            && same_set types (knockout_type inv match_id ∷ [])
            && no_label first.group_label))
          knockout_proposition)

unfoldable pub check_each_match :
    Inventory → List ℕ → List PolygonMarket → Result SeedError (Unit {0})
unfolding check_match match_rows
check_each_match inv [] rows = ok tt
check_each_match inv (match_id ∷ ids) rows =
    check_match inv match_id (match_rows match_id rows) >>= λ done. check_each_match inv ids rows

abbrev pub is_lower_hex : ℕ → Bool
is_lower_hex c = (leb 48 c && leb c 57) || (leb 97 c && leb c 102)

unfoldable pub all_lower_hex : List ℕ → Bool
all_lower_hex [] = true
all_lower_hex (c ∷ cs) = is_lower_hex c && all_lower_hex cs

-- `[0-9a-f]{64}`
abbrev pub is_sha256 : String → Bool
is_sha256 text = length (codes text) == 64 && all_lower_hex (codes text)

unfoldable pub check_hash : String → List PolygonMarket → Result SeedError (Unit {0})
unfolding all_lower_hex
check_hash content [] = err undeclared_hash
check_hash content (row ∷ rows) = do
  raise_if
      (not (
        set_size {A = String} ((map (λ (r : PolygonMarket). r.manifest_version) (row ∷ rows)))
        == 1))
      several_versions
  raise_if
      (not (
        set_size {A = String} ((map (λ (r : PolygonMarket). r.manifest_sha256) (row ∷ rows))) == 1
        && is_sha256 row.manifest_sha256))
      undeclared_hash
  raise_if (not (str_eq row.manifest_sha256 content)) hash_mismatch

-- The order of texts by their code points.
abbrev pub codes_le : List ℕ → List ℕ → Bool
codes_le [] bs = true
codes_le (a ∷ as') [] = false
codes_le (a ∷ as') (b ∷ bs) = ltb a b || (a == b && codes_le as' bs)

-- The order of `(fifa_match_id, proposition_id)`.
abbrev pub market_le : PolygonMarket → PolygonMarket → Bool
market_le a b =
    ltb a.fifa_match_id b.fifa_match_id
    || (a.fifa_match_id == b.fifa_match_id
        && codes_le (codes a.proposition_id) (codes b.proposition_id))

unfoldable pub insert_market : PolygonMarket → List PolygonMarket → List PolygonMarket
insert_market row [] = row ∷ []
insert_market row (next ∷ rows) =
    if market_le row next then row ∷ next ∷ rows else next ∷ insert_market row rows

unfoldable pub sort_markets : List PolygonMarket → List PolygonMarket
unfolding insert_market
sort_markets [] = []
sort_markets (row ∷ rows) = insert_market row (sort_markets rows)

module _ (content_sha256 : List PolygonMarket → String) where
  unfoldable pub validate_manifest :
      Inventory → List PolygonMarket → Result SeedError (List PolygonMarket)
  unfolding check_identities check_matches check_each_match check_hash sort_markets token_ids
  validate_manifest inv rows = do
    check_identities inv rows
    check_matches inv rows
    check_each_match inv (match_ids rows) rows
    check_hash (content_sha256 rows) rows
    ok (sort_markets rows)
