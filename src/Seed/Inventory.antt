-- ===== src/Seed/Inventory.antt =====
-- The constants that a manifest is validated against (polygon_seed.py). The validation is written
-- over an inventory, and `wc2026` is the one of the source.
use oddsfox_pipeline.Base.{ℕ, String, List, [], ◌∷◌}

pub record Inventory : Type 0 where
  pub games : ℕ
  pub propositions : ℕ
  pub tokens : ℕ
  pub stage_counts : List (String × ℕ)
  pub group_matches : ℕ
  pub third_place_match : ℕ
  pub final_match : ℕ

abbrev pub wc2026 : Inventory
wc2026 = record {
  games = 104;
  propositions = 248;
  tokens = 496;
  stage_counts =
      ("group_stage", 72)
      ∷ ("round_of_32", 16)
      ∷ ("round_of_16", 8)
      ∷ ("quarterfinal", 4)
      ∷ ("semifinal", 2)
      ∷ ("third_place", 1)
      ∷ ("final", 1)
      ∷ [];
  group_matches = 72;
  third_place_match = 103;
  final_match = 104;
}

abbrev pub standard_v2_exchange : String
standard_v2_exchange = "0xE111180000d2663C0091e4f400237545B87B996B"

abbrev pub neg_risk_v2_exchange : String
neg_risk_v2_exchange = "0xe2222d279d744050d28e00520010520000310F59"

abbrev pub group_types : List String
group_types = "home_win" ∷ "draw" ∷ "away_win" ∷ []

pub data SeedError : Type 0 where
  wrong_proposition_count repeated_proposition repeated_condition wrong_token_count : SeedError
  repeated_condition_locator repeated_question_locator : SeedError
  wrong_match_ids wrong_stage_distribution : SeedError
  several_bundles several_tables several_reviews : SeedError
  group_exchange knockout_exchange inconsistent_fixture : SeedError
  group_propositions knockout_proposition : SeedError
  several_versions undeclared_hash hash_mismatch : SeedError
