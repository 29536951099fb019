-- ===== src/Rpc/Narrowed.antt =====
-- A round of the search for several targets, where the provider has the headers asked for.
use oddsfox_pipeline.Base.{
  ℕ, ◌+◌, ◌≤◌, List, [], ◌∷◌, map, some, true, false, if◌then◌else◌, ◌≡◌, refl, inl, inr, Result,
  ok, ltb, arith, Bool-cases, All,
}
use oddsfox_pipeline.Rpc.Search.{PolygonBlock, RpcError}
use oddsfox_pipeline.Rpc.Batch.{value_of}
use oddsfox_pipeline.Rpc.Vector.{Probe, middle_of, is_open, middles, narrow, narrow_all}

-- The dict has a header of the number, of its time.
abbrev pub IsTimed : (ℕ → ℕ) → List (ℕ × PolygonBlock) → ℕ → Type 0
IsTimed time headers n =
    (block : PolygonBlock) × (value_of n headers ≡ some block) × (block.timestamp ≡ time n)

-- A provider that, asked for any numbers up to `last`, returns a dict with a header of each of them.
abbrev pub IsHeaderSource :
    (ℕ → ℕ) → ℕ → (List ℕ → Result RpcError (List (ℕ × PolygonBlock))) → Type 0
IsHeaderSource time last blocks =
    (numbers : List ℕ)
    → All (λ n. n ≤ last) numbers
    → (headers : List (ℕ × PolygonBlock)) × (blocks numbers ≡ ok headers)
      × All (IsTimed time headers) numbers

abbrev pub IsUpTo : ℕ → Probe → Type 0
IsUpTo last p = p.upper ≤ last

pub middles-IsUpTo :
    (last : ℕ) (probes : List Probe)
    → All (IsUpTo last) probes
    → All (λ n. n ≤ last) (middles probes)
unfolding middles
middles-IsUpTo last [] h = tt
middles-IsUpTo last (p ∷ probes) h = elim (Bool-cases (is_open p)) [
  | inl wide ↦ rw wide (ground (arith, h.0), middles-IsUpTo last probes h.1)
  | inr closed ↦ rw closed (middles-IsUpTo last probes h.1)
]

module _ (time : ℕ → ℕ) where
  -- What a round leaves of a probe, where its header is found.
  abbrev pub narrowed : Probe → Probe
  narrowed p =
      if is_open p
      then (if ltb (time (middle_of p)) p.target
          then record p { lower = middle_of p + 1 }
          else record p { upper = middle_of p })
      else p

  narrow-narrowed :
      (headers : List (ℕ × PolygonBlock)) (p : Probe)
      → is_open p ≡ true
      → IsTimed time headers (middle_of p)
      → narrow headers p ≡ ok (narrowed p)
  unfolding narrow
  narrow-narrowed headers p wide (block, found, timed) = rw (wide, found, timed) refl

  narrow-closed :
      (headers : List (ℕ × PolygonBlock)) (p : Probe)
      → is_open p ≡ false
      → narrow headers p ≡ ok (narrowed p)
  unfolding narrow
  narrow-closed headers p closed = rw closed refl

  pub narrow_all-narrowed :
      (headers : List (ℕ × PolygonBlock)) (probes : List Probe)
      → All (IsTimed time headers) (middles probes)
      → narrow_all headers probes ≡ ok (map narrowed probes)
  unfolding narrow_all middles
  narrow_all-narrowed headers [] h = refl
  narrow_all-narrowed headers (p ∷ probes) h = elim (Bool-cases (is_open p)) [
    | inl wide ↦
        let timed : All (IsTimed time headers) (middle_of p ∷ middles probes) = rw wide at h in
        rw (narrow-narrowed headers p wide timed.0, narrow_all-narrowed headers probes timed.1) refl
    | inr closed ↦
        let timed : All (IsTimed time headers) (middles probes) = rw closed at h in
        rw (narrow-closed headers p closed, narrow_all-narrowed headers probes timed) refl
  ]

  narrowed-IsUpTo : (last : ℕ) (p : Probe) → IsUpTo last p → IsUpTo last (narrowed p)
  narrowed-IsUpTo last p h = ground arith

  pub map-narrowed-IsUpTo :
      (last : ℕ) (probes : List Probe)
      → All (IsUpTo last) probes
      → All (IsUpTo last) (map narrowed probes)
  map-narrowed-IsUpTo last [] h = tt
  map-narrowed-IsUpTo last (p ∷ probes) h =
      (narrowed-IsUpTo last p h.0, map-narrowed-IsUpTo last probes h.1)
