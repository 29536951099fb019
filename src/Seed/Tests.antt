-- ===== src/Seed/Tests.antt =====
-- A manifest of one match, accepted against an inventory of its size.
use oddsfox_pipeline.Base.{
  String, [], ◌∷◌, none, ◌≡◌, refl, ok, All, from_keys, remove, contains, count,
}
use oddsfox_pipeline.Settlement.Types.{PolygonMarket}
use oddsfox_pipeline.Settlement.Index.{by_token}
use oddsfox_pipeline.Settlement.Sides.{IsSideIndex}
use oddsfox_pipeline.Seed.Inventory.{Inventory, standard_v2_exchange}
use oddsfox_pipeline.Seed.Manifest.{validate_manifest, sort_markets}
use oddsfox_pipeline.Seed.Indexed.{IsIndexed, validate_manifest-IsIndexed}

abbrev small : Inventory
small = record {
  games = 1;
  propositions = 1;
  tokens = 2;
  stage_counts = ("final", 1) ∷ [];
  group_matches = 0;
  third_place_match = 2;
  final_match = 1;
}

abbrev sha256 : String
sha256 = "00000000000000000000000000000000000000000000000000000000000000ff"

abbrev market : PolygonMarket
market = record {
  proposition_id = "p";
  fifa_match_id = 1;
  stage = "final";
  group_label = none;
  home_team = "home";
  away_team = "away";
  kickoff_at_utc = 100;
  window_start_at_utc = 100;
  window_end_at_utc = 200;
  proposition_type = "home_wins_final";
  yes_represents = "home";
  no_represents = "not home";
  condition_id = "c";
  yes_token_id = "1";
  no_token_id = "2";
  market_structure = "standard";
  exchange_address = standard_v2_exchange;
  reference_bundle_id = "b";
  reference_table = "t";
  reference_row_key = "1";
  reference_row_sha256 = "r";
  condition_init_tx_hash = "i";
  condition_init_log_index = 0;
  question_init_tx_hash = "q";
  question_init_log_index = 0;
  ancillary_data_sha256 = "a";
  token_verification_block_number = 1;
  token_verification_block_hash = "h";
  manifest_sha256 = sha256;
  manifest_version = "1.0.0";
  reviewed_at_utc = 1;
}

accepted : validate_manifest (λ rows. sha256) small (market ∷ []) ≡ ok (market ∷ [])
unfolding validate_manifest from_keys remove contains count
accepted = refl

validate_manifest-IsIndexed_example :
    (market ∷ [] ≡ sort_markets (market ∷ []))
    × All (IsIndexed (by_token (market ∷ []))) (market ∷ [])
    × IsSideIndex (by_token (market ∷ []))
validate_manifest-IsIndexed_example =
    validate_manifest-IsIndexed (λ rows. sha256) small (market ∷ []) (market ∷ []) refl accepted
