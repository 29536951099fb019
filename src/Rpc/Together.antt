-- ===== src/Rpc/Together.antt =====
-- The searches for several targets find what each search would find alone.
use oddsfox_pipeline.Base.{
  ℕ, zero, suc, ◌+◌, ◌≤◌, List, [], ◌∷◌, map, true, false, ◌≡◌, refl, sym, ◌∙◌, inl, inr, Result,
  ok, ltb, arith, Bool-cases, All,
}
use oddsfox_pipeline.Rpc.Search.{PolygonBlock, RpcError, search_loop, first_block_at_or_after}
use oddsfox_pipeline.Rpc.Vector.{
  Probe, middle_of, is_open, any_open, middles, any_past, rounds, first_blocks_at_or_after,
}
use oddsfox_pipeline.Rpc.Narrowed.{
  IsHeaderSource, narrowed, narrow_all-narrowed, IsUpTo, middles-IsUpTo, map-narrowed-IsUpTo,
}

module _ (time : ℕ → ℕ) where
  abbrev alone : ℕ → Probe → Result RpcError ℕ
  alone fuel p = search_loop (λ n. ok (time n)) p.target fuel p.lower p.upper

  -- The results are those of the probes, one by one.
  abbrev EachAlone : ℕ → List Probe → List ℕ → Type 0
  EachAlone fuel [] [] = Unit
  EachAlone fuel (p ∷ probes) (n ∷ found) = (alone fuel p ≡ ok n) × EachAlone fuel probes found
  EachAlone fuel _ _ = ⊥

  alone-closed : (fuel : ℕ) (p : Probe) → is_open p ≡ false → alone fuel p ≡ ok p.lower
  unfolding search_loop
  alone-closed zero p h = refl
  alone-closed (suc fuel) p h = rw (h, search_loop) refl

  alone_early :
      (fuel : ℕ) (p : Probe)
      → is_open p ≡ true
      → ltb (time (middle_of p)) p.target ≡ true
      → alone (suc fuel) p ≡ alone fuel (record p { lower = middle_of p + 1 })
  unfolding search_loop
  alone_early fuel p wide early = ground arith

  alone_late :
      (fuel : ℕ) (p : Probe)
      → is_open p ≡ true
      → ltb (time (middle_of p)) p.target ≡ false
      → alone (suc fuel) p ≡ alone fuel (record p { upper = middle_of p })
  unfolding search_loop
  alone_late fuel p wide late = ground arith

  alone-narrowed : (fuel : ℕ) (p : Probe) → alone (suc fuel) p ≡ alone fuel (narrowed time p)
  alone-narrowed fuel p = elim (Bool-cases (is_open p)) [
    | inr closed ↦ rw closed (alone-closed (suc fuel) p closed ∙ sym (alone-closed fuel p closed))
    | inl wide ↦ elim (Bool-cases (ltb (time (middle_of p)) p.target)) [
      | inl early ↦ rw (wide, early) (alone_early fuel p wide early)
      | inr late ↦ rw (wide, late) (alone_late fuel p wide late)
    ]
  ]

  EachAlone-lower :
      (fuel : ℕ) (probes : List Probe)
      → any_open probes ≡ false
      → EachAlone fuel probes (map (λ p. p.lower) probes)
  unfolding any_open
  EachAlone-lower fuel [] h = tt
  EachAlone-lower fuel (p ∷ probes) h =
      (alone-closed fuel p (ground arith), EachAlone-lower fuel probes (ground arith))

  EachAlone-start : (probes : List Probe) → EachAlone 0 probes (map (λ p. p.lower) probes)
  unfolding search_loop
  EachAlone-start [] = tt
  EachAlone-start (p ∷ probes) = (refl, EachAlone-start probes)

  EachAlone-narrowed :
      (fuel : ℕ) (probes : List Probe) (found : List ℕ)
      → EachAlone fuel (map (narrowed time) probes) found
      → EachAlone (suc fuel) probes found
  EachAlone-narrowed fuel [] [] h = tt
  EachAlone-narrowed fuel [] (n ∷ found) h = h
  EachAlone-narrowed fuel (p ∷ probes) [] h = h
  EachAlone-narrowed fuel (p ∷ probes) (n ∷ found) h =
      (alone-narrowed fuel p ∙ h.0, EachAlone-narrowed fuel probes found h.1)

  module _ (last : ℕ) (blocks : List ℕ → Result RpcError (List (ℕ × PolygonBlock)))
      (source : IsHeaderSource time last blocks) where
    rounds-EachAlone :
        (fuel : ℕ) (probes : List Probe)
        → All (IsUpTo last) probes
        → (found : List ℕ) × (rounds blocks fuel probes ≡ ok found) × EachAlone fuel probes found
    unfolding rounds
    rounds-EachAlone zero probes h = (_, refl, EachAlone-start probes)
    rounds-EachAlone (suc fuel) probes h = elim (Bool-cases (any_open probes)) [
      | inr closed ↦ (_, rw (closed, rounds) refl, EachAlone-lower (suc fuel) probes closed)
      | inl wide ↦
          let (headers, fetched, timed) = source (middles probes) (middles-IsUpTo last probes h) in
          let (found, e, v) =
            rounds-EachAlone fuel (map (narrowed time) probes)
              (map-narrowed-IsUpTo time last probes h) in
          (
            found,
            rw (wide, rounds, fetched, narrow_all-narrowed time headers probes timed) e,
            EachAlone-narrowed fuel probes found v,
          )
    ]

-- The results are those of the single searches from the first block on, in the order of the targets.
abbrev pub EachFound : (ℕ → ℕ) → PolygonBlock → List ℕ → List ℕ → Type 0
EachFound time head [] [] = Unit
EachFound time head (target ∷ targets) (n ∷ found) =
    (first_block_at_or_after (λ k. ok (time k)) target head 0 ≡ ok n)
    × EachFound time head targets found
EachFound time head _ _ = ⊥

EachFound-alone :
    (time : ℕ → ℕ) (head : PolygonBlock) (targets found : List ℕ)
    → All (λ target. target ≤ head.timestamp) targets
    → EachAlone time
        (suc head.number)
        (map (λ target. record { target = target; lower = 0; upper = head.number }) targets)
        found
    → EachFound time head targets found
unfolding first_block_at_or_after
EachFound-alone time head [] [] h v = tt
EachFound-alone time head [] (n ∷ found) h v = v
EachFound-alone time head (target ∷ targets) [] h v = v
EachFound-alone time head (target ∷ targets) (n ∷ found) h v =
    let within : ltb head.timestamp target ≡ false = ground (arith, h.0) in
    (rw within v.0, EachFound-alone time head targets found h.1 v.1)

none_past :
    (head : PolygonBlock) (targets : List ℕ)
    → All (λ target. target ≤ head.timestamp) targets
    → any_past head targets ≡ false
unfolding any_past
none_past head [] h = refl
none_past head (target ∷ targets) h = ground (arith, h.0, none_past head targets h.1)

probes-IsUpTo :
    (last : ℕ) (targets : List ℕ)
    → All
        (λ (p : Probe). p.upper ≤ last)
        (map (λ target. record { target = target; lower = 0; upper = last }) targets)
probes-IsUpTo last [] = tt
probes-IsUpTo last (target ∷ targets) = (omega arith, probes-IsUpTo last targets)

-- Where the provider returns, for any numbers up to the finalized head, a dict with a header of each
-- of them, the search for targets up to the head raises no error, a KeyError of that dict included,
-- and returns, target by target, what the search for each of them alone would.
pub first_blocks_at_or_after-EachFound :
    (time : ℕ → ℕ) (head : PolygonBlock) (targets : List ℕ)
    (blocks : List ℕ → Result RpcError (List (ℕ × PolygonBlock)))
    → IsHeaderSource time head.number blocks
    → All (λ target. target ≤ head.timestamp) targets
    → (found : List ℕ) × (first_blocks_at_or_after blocks targets head ≡ ok found)
      × EachFound time head targets found
unfolding first_blocks_at_or_after
first_blocks_at_or_after-EachFound time head targets blocks source h =
    let (found, e, v) =
      rounds-EachAlone time head.number blocks source (suc head.number) _
        (probes-IsUpTo head.number targets) in
    (found, rw (none_past head targets h) e, EachFound-alone time head targets found h v)
