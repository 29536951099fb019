-- ===== src/Rpc/Vector.antt =====
-- `PolygonRPC.first_blocks_at_or_after`: the searches for several targets, one batch of headers a
-- round. `blocks` stands for `self.blocks`, which gives a dict of headers or raises.
use oddsfox_pipeline.Base.{
  ℕ, zero, suc, ◌+◌, ◌/◌, List, [], ◌∷◌, map, none, some, Bool, true, false, ◌||◌, Result, ok, err,
  ◌>>=◌, ltb, if◌then◌else◌,
}
use oddsfox_pipeline.Rpc.Search.{PolygonBlock, RpcError, past_finalized_head, missing_header}
use oddsfox_pipeline.Rpc.Batch.{value_of}

-- An index of `targets`, `lower` and `upper`.
pub record Probe : Type 0 where
  pub target : ℕ
  pub lower : ℕ
  pub upper : ℕ

abbrev pub middle_of : Probe → ℕ
middle_of p = (p.lower + p.upper) / 2

abbrev pub is_open : Probe → Bool
is_open p = ltb p.lower p.upper

unfoldable pub any_open : List Probe → Bool
any_open [] = false
any_open (p ∷ probes) = is_open p || any_open probes

-- The set of the middles; how often one is listed does not matter to `self.blocks`.
unfoldable pub middles : List Probe → List ℕ
middles [] = []
middles (p ∷ probes) = let rest = middles probes in if is_open p then middle_of p ∷ rest else rest

-- One round of the loop over the targets; `missing_header` is the KeyError of `headers[middle]`.
unfoldable pub narrow : List (ℕ × PolygonBlock) → Probe → Result RpcError Probe
unfolding value_of
narrow headers p =
    if is_open p
    then elim (value_of (middle_of p) headers) [
      | none ↦ err missing_header
      | some block ↦ ok (
          if ltb block.timestamp p.target
          then record p { lower = middle_of p + 1 }
          else record p { upper = middle_of p })
    ]
    else ok p

unfoldable pub narrow_all : List (ℕ × PolygonBlock) → List Probe → Result RpcError (List Probe)
unfolding narrow
narrow_all headers [] = ok []
narrow_all headers (p ∷ probes) =
    narrow headers p >>= λ narrowed. narrow_all headers probes >>= λ rest. ok (narrowed ∷ rest)

unfoldable pub any_past : PolygonBlock → List ℕ → Bool
any_past head [] = false
any_past head (target ∷ targets) = ltb head.timestamp target || any_past head targets

module _ (blocks : List ℕ → Result RpcError (List (ℕ × PolygonBlock))) where
  unfoldable pub rounds : ℕ → List Probe → Result RpcError (List ℕ)
  unfolding any_open middles narrow_all
  rounds zero probes = ok (map (λ p. p.lower) probes)
  rounds (suc fuel) probes = elim (any_open probes) [
    | false ↦ ok (map (λ p. p.lower) probes)
    | true ↦ blocks (middles probes) >>= λ headers. narrow_all headers probes >>= rounds fuel
  ]

  -- Each open interval shrinks in a round, so the length of the chain bounds the rounds.
  unfoldable pub first_blocks_at_or_after : List ℕ → PolygonBlock → Result RpcError (List ℕ)
  unfolding rounds any_past
  first_blocks_at_or_after targets head =
      if any_past head targets
      then err past_finalized_head
      else rounds (suc head.number)
          (map (λ target. record { target = target; lower = 0; upper = head.number }) targets)
