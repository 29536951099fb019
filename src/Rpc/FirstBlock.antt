-- ===== src/Rpc/FirstBlock.antt =====
-- The search finds the first block that reaches the target.
use oddsfox_pipeline.Base.{
  ℕ, zero, suc, ◌+◌, ◌-◌, ◌/◌, ◌≤◌, ◌<◌, ◌≡◌, ◌⊎◌, inl, inr, ok, err, arith, Bool-cases, ltb,
}
use oddsfox_pipeline.Rpc.Search.{
  PolygonBlock, past_finalized_head, search_loop, first_block_at_or_after,
}

-- The first number from `low` up to `high` at which `time` reaches the target.
pub record IsFirstAt (time : ℕ → ℕ) (target low high found : ℕ) : Type 0 where
  pub from_low : low ≤ found
  pub up_to_high : found ≤ high
  pub reached : target ≤ time found
  pub earlier : (n : ℕ) → low ≤ n → n < found → time n < target

-- `time` gives the headers' timestamps, which do not fall along the chain.
module _ (time : ℕ → ℕ) (target : ℕ) (monotone : (m n : ℕ) → m ≤ n → time m ≤ time n) where
  search_loop-IsFirstAt :
      (fuel lower upper : ℕ)
      → upper - lower < fuel
      → lower ≤ upper
      → target ≤ time upper
      → (found : ℕ) × (search_loop (λ n. ok (time n)) target fuel lower upper ≡ ok found)
        × IsFirstAt time target lower upper found
  unfolding search_loop
  search_loop-IsFirstAt zero lower upper f le top = absurd (omega arith)
  search_loop-IsFirstAt (suc fuel) lower upper f le top = elim (Bool-cases (ltb lower upper)) [
    | inr stop ↦ (
      lower,
      rw (stop, search_loop),
      record {
        from_low = omega arith;
        up_to_high = le;
        reached = let e : lower ≡ upper = ground arith in rw e top;
        earlier = λ n a b. absurd (omega arith);
      },
    )
    | inl go ↦ elim (Bool-cases (ltb (time ((lower + upper) / 2)) target)) [
      | inl early ↦
          let (found, e, v) =
            search_loop-IsFirstAt fuel ((lower + upper) / 2 + 1) upper (ground arith) (ground arith)
              top in
          (
            found,
            ground arith,
            record {
              from_low = omega (arith, v.from_low);
              up_to_high = v.up_to_high;
              reached = v.reached;
              earlier = λ n a b. elim (Bool-cases (ltb ((lower + upper) / 2) n)) [
                | inl right ↦ v.earlier n (ground arith) b
                | inr left ↦ ground (arith, monotone n ((lower + upper) / 2))
              ];
            },
          )
      | inr late ↦
          let (found, e, v) =
            search_loop-IsFirstAt fuel lower ((lower + upper) / 2) (ground arith) (ground arith)
              (ground arith) in
          (
            found,
            ground arith,
            record {
              from_low = v.from_low;
              up_to_high = omega (arith, v.up_to_high);
              reached = v.reached;
              earlier = v.earlier;
            },
          )
    ]
  ]

  -- On headers that do not fall along the chain, the head's among them, the search returns the first block from `low` on
  -- whose timestamp reaches the target, if the finalized head does, and raises if it does not.
  pub first_block_at_or_after-IsFirstAt :
      (head : PolygonBlock) (low : ℕ)
      → time head.number ≡ head.timestamp
      → low ≤ head.number
      → ((target ≤ head.timestamp)
          × (found : ℕ) × (first_block_at_or_after (λ n. ok (time n)) target head low ≡ ok found)
          × IsFirstAt time target low head.number found)
        ⊎ ((head.timestamp < target)
            × (first_block_at_or_after (λ n. ok (time n)) target head low
                ≡ err past_finalized_head))
  unfolding first_block_at_or_after
  first_block_at_or_after-IsFirstAt head low e le = elim (Bool-cases (ltb head.timestamp target)) [
    | inl past ↦ inr (ground arith, rw past)
    | inr within ↦
        let (found, r, v) =
          search_loop-IsFirstAt (suc head.number) low head.number (omega arith) le (ground arith) in
        inl (ground arith, found, rw within r, v)
  ]
