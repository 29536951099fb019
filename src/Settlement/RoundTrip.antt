-- ===== src/Settlement/RoundTrip.antt =====
-- Cutting a transaction into segments loses no event, and is undone by writing them one after
-- another.
use oddsfox_pipeline.Base.{
  List, [], ◌∷◌, ◌++◌, Option, none, some, true, false, ◌≡◌, ◌≢◌, refl, sym, ap, ◌∙◌, inl, inr,
  append-nil, append_assoc, All, Bool-cases, Option-cases,
}
use mathlib.Core.Path.{subst}
use mathlib.Core.Option.{some-injective}
use oddsfox_pipeline.Settlement.Types.{SettlementEvent, SettlementError}
use oddsfox_pipeline.Settlement.Segment.{is_filled}
use oddsfox_pipeline.Settlement.Transactions.{
  Segment, split_last, boundary, segments_from, transaction_segments,
}

-- The events that the segments were cut from.
abbrev pub segment_events : Segment → List SettlementEvent
segment_events s = s.passive ++ s.active ∷ s.matched ∷ []

abbrev pub events_of : List Segment → List SettlementEvent
events_of [] = []
events_of (s ∷ segments) = segment_events s ++ events_of segments

abbrev pub IsFilled : SettlementEvent → Type 0
IsFilled e = is_filled e.kind ≡ true

-- At least one passive fill, then the active one, then the `OrdersMatched`.
pub record IsSegment (s : Segment) : Type 0 where
  pub some_passive : s.passive ≢ []
  pub passive_filled : All IsFilled s.passive
  pub active_filled : IsFilled s.active
  pub matched_last : is_filled s.matched.kind ≡ false

All-snoc :
    (xs : List SettlementEvent) (e : SettlementEvent)
    → All IsFilled xs
    → IsFilled e
    → All IsFilled (xs ++ e ∷ [])
All-snoc [] e h p = (p, tt)
All-snoc (x ∷ xs) e h p = (h.0, All-snoc xs e h.1 p)

split_last-append :
    (e : SettlementEvent) (xs : List SettlementEvent)
    → (split_last e xs).0 ++ (split_last e xs).1 ∷ [] ≡ e ∷ xs
split_last-append e [] = refl
split_last-append e (f ∷ xs) = ap (λ l. e ∷ l) (split_last-append f xs)

split_last-IsFilled :
    (e : SettlementEvent) (xs : List SettlementEvent)
    → All IsFilled (e ∷ xs)
    → All IsFilled (split_last e xs).0 × IsFilled (split_last e xs).1
split_last-IsFilled e [] h = (tt, h.0)
split_last-IsFilled e (f ∷ xs) h = let (a, b) = split_last-IsFilled f xs h.1 in ((h.0, a), b)

split_last-snoc :
    (e : SettlementEvent) (xs : List SettlementEvent) (a : SettlementEvent)
    → split_last e (xs ++ a ∷ []) ≡ (e ∷ xs, a)
split_last-snoc e [] a = refl
split_last-snoc e (f ∷ xs) a = λ i. (e ∷ (split_last-snoc f xs a i).0, (split_last-snoc f xs a i).1)

split_last-IsSegment :
    (e f : SettlementEvent) (xs : List SettlementEvent) (matched : SettlementEvent)
    → All IsFilled (e ∷ f ∷ xs)
    → is_filled matched.kind ≡ false
    → let (before, last) = split_last e (f ∷ xs) in
      let s : Segment = record { passive = before; active = last; matched = matched } in
      IsSegment s × (segment_events s ≡ (e ∷ f ∷ xs) ++ matched ∷ [])
split_last-IsSegment e f xs matched h m = (
  record {
    some_passive = λ p. cc p;
    passive_filled = (split_last-IsFilled e (f ∷ xs) h).0;
    active_filled = (split_last-IsFilled e (f ∷ xs) h).1;
    matched_last = m;
  },
  sym (append_assoc (split_last e (f ∷ xs)).0 ((split_last e (f ∷ xs)).1 ∷ []) (matched ∷ []))
      ∙ ap (λ (l : List SettlementEvent). l ++ matched ∷ []) (split_last-append e (f ∷ xs)),
)

boundary-IsSegment :
    (pending : List SettlementEvent) (matched : SettlementEvent) (s : Segment)
    → All IsFilled pending
    → is_filled matched.kind ≡ false
    → boundary pending matched ≡ some s
    → IsSegment s × (segment_events s ≡ pending ++ matched ∷ [])
boundary-IsSegment [] matched s h m e = cc
boundary-IsSegment (x ∷ []) matched s h m e = cc
boundary-IsSegment (x ∷ y ∷ xs) matched s h m e =
    subst (λ (t : Segment). IsSegment t × (segment_events t ≡ (x ∷ y ∷ xs) ++ matched ∷ []))
      (some-injective _ _ e) (split_last-IsSegment x y xs matched h m)

-- What the segments leave of the events, which is nothing unless the generator raised.
abbrev pub Cuts : List SettlementEvent → List Segment × Option SettlementError → Type 0
Cuts events (segments, error) =
    (rest : List SettlementEvent) × (events ≡ events_of segments ++ rest)
    × (error ≡ none → rest ≡ [])
    × All IsSegment segments

segments_from-Cuts :
    (pending events : List SettlementEvent)
    → All IsFilled pending
    → Cuts (pending ++ events) (segments_from pending events)
unfolding segments_from
segments_from-Cuts [] [] h = ([], refl, λ e. refl, tt)
segments_from-Cuts (x ∷ xs) [] h = (x ∷ xs, append-nil (x ∷ xs), λ e. cc e, tt)
segments_from-Cuts pending (event ∷ events) h = elim (Bool-cases (is_filled event.kind)) [
  | inl filled ↦
      rw (filled, segments_from)
        (rw (append_assoc pending (event ∷ []) events) at
          (segments_from-Cuts (pending ++ event ∷ []) events (All-snoc pending event h filled)))
  | inr not_filled ↦ elim (Option-cases (boundary pending event)) [
    | inl e ↦ rw (not_filled, e, segments_from) (pending ++ event ∷ events, refl, λ p. cc p, tt)
    | inr (s, e) ↦
        rw (not_filled, e, segments_from)
          (let (valid, whole) = boundary-IsSegment pending event s h not_filled e in
            let (rest, cut, done, all_valid) = segments_from-Cuts [] events tt in
            (
              rest,
              sym (append_assoc pending (event ∷ []) events)
                  ∙ ap (λ (l : List SettlementEvent). l ++ events) (sym whole)
                  ∙ ap (λ (l : List SettlementEvent). segment_events s ++ l) cut
                  ∙ sym (
                      append_assoc (segment_events s) (events_of (segments_from [] events).0) rest),
              done,
              (valid, all_valid),
            ))
  ]
]

segments_from-append :
    (pending xs ys : List SettlementEvent)
    → All IsFilled xs
    → segments_from pending (xs ++ ys) ≡ segments_from (pending ++ xs) ys
unfolding segments_from
segments_from-append pending [] ys h = rw (append-nil pending)
segments_from-append pending (x ∷ xs) ys h =
    rw (h.0, segments_from)
      (segments_from-append (pending ++ x ∷ []) xs ys h.1
        ∙ ap (λ (l : List SettlementEvent). segments_from l ys) (append_assoc pending (x ∷ []) xs))

boundary-snoc :
    (s : Segment) → s.passive ≢ [] → boundary (s.passive ++ s.active ∷ []) s.matched ≡ some s
boundary-snoc s h = go s.passive refl
  where
    go :
        (xs : List SettlementEvent)
        → s.passive ≡ xs
        → boundary (xs ++ s.active ∷ []) s.matched
          ≡ some (record { passive = xs; active = s.active; matched = s.matched })
    go [] e = absurd (h e)
    go (x ∷ []) e = refl
    go (x ∷ y ∷ xs) e =
        ap
          (λ (p : List SettlementEvent × SettlementEvent).
            some (record { passive = p.0; active = p.1; matched = s.matched }))
          (split_last-snoc x (y ∷ xs) s.active)

segments_from-segment :
    (s : Segment) (ys : List SettlementEvent)
    → IsSegment s
    → segments_from [] (segment_events s ++ ys)
      ≡ (s ∷ (segments_from [] ys).0, (segments_from [] ys).1)
unfolding segments_from
segments_from-segment s ys v =
    rw (append_assoc s.passive (s.active ∷ s.matched ∷ []) ys)
      (segments_from-append [] s.passive (s.active ∷ s.matched ∷ ys) v.passive_filled ∙ closed)
  where
    closed :
        segments_from s.passive (s.active ∷ s.matched ∷ ys)
        ≡ (s ∷ (segments_from [] ys).0, (segments_from [] ys).1)
    closed = rw (v.active_filled, v.matched_last, boundary-snoc s v.some_passive, segments_from)

-- The segments of any transaction are well formed, and their events, in order, are the ones given:
-- all of them, unless the generator raised, and then a prefix.
pub transaction_segments-Cuts :
    (events : List SettlementEvent) → Cuts events (transaction_segments events)
unfolding transaction_segments
transaction_segments-Cuts events = segments_from-Cuts [] events tt

-- Well-formed segments, written one after another, are cut back into the same segments.
pub transaction_segments-events_of :
    (segments : List Segment)
    → All IsSegment segments
    → transaction_segments (events_of segments) ≡ (segments, none)
unfolding transaction_segments
transaction_segments-events_of [] h = refl
transaction_segments-events_of (s ∷ segments) h =
    segments_from-segment s (events_of segments) h.0
    ∙ ap (λ (r : List Segment × Option SettlementError). (s ∷ r.0, r.1))
        (transaction_segments-events_of segments h.1)
