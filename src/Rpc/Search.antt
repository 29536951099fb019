-- ===== src/Rpc/Search.antt =====
-- `PolygonRPC.first_block_at_or_after`: binary search over the finalized headers. A time is a number
-- of seconds. `timestamp` stands for `self.block(number).timestamp`, a call to the provider, which
-- may raise.
use oddsfox_pipeline.Base.{
  ℕ, String, zero, suc, ◌+◌, ◌/◌, true, false, Result, ok, err, ◌>>=◌, ltb, if◌then◌else◌,
}

pub record PolygonBlock : Type 0 where
  pub number : ℕ
  pub hash : String
  pub timestamp : ℕ

-- `missing_header` is the KeyError of a dict of headers.
pub data RpcError : Type 0 where
  past_finalized_head missing_header : RpcError
  provider : ℕ → RpcError

module _ (timestamp : ℕ → Result RpcError ℕ) (target : ℕ) where
  -- The `while lower < upper` loop.
  unfoldable pub search_loop : ℕ → ℕ → ℕ → Result RpcError ℕ
  search_loop zero lower upper = ok lower
  search_loop (suc fuel) lower upper = elim (ltb lower upper) [
    | false ↦ ok lower
    | true ↦ timestamp ((lower + upper) / 2) >>= λ time. elim (ltb time target) [
      | true ↦ search_loop fuel ((lower + upper) / 2 + 1) upper
      | false ↦ search_loop fuel lower ((lower + upper) / 2)
    ]
  ]

  -- The interval shrinks in each round, so its length bounds the rounds.
  unfoldable pub first_block_at_or_after : PolygonBlock → ℕ → Result RpcError ℕ
  unfolding search_loop
  first_block_at_or_after finalized_head low =
      if ltb finalized_head.timestamp target
      then err past_finalized_head
      else search_loop (suc finalized_head.number) low finalized_head.number
