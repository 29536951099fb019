-- ===== src/Rpc/Kinds.antt =====
-- The kind of a settlement log by its first topic.
use mathlib.Core.Option.{some-injective}
use oddsfox_pipeline.Base.{ℕ, String, some, ◌≡◌, ◌⊎◌, inl, inr, Bool-cases, eq_iff, str_eq}
use oddsfox_pipeline.Rpc.Logs.{topics_of, kind_of}
use oddsfox_pipeline.Settlement.Types.{EventKind, order_filled, orders_matched}
use oddsfox_pipeline.Rpc.DataWords.{digits_of}

-- The kind by the first topic, and how many topics and how many digits of data it has.
abbrev pub IsOfKind : String → EventKind → ℕ → ℕ → Type 0
IsOfKind topic kind topic_count digit_count =
    ((topic ≡ "0xd543adfd945773f1a62f74f0ee55a5e3b9b1a28262980ba90b1a89f2ea84d8ee")
      × (kind ≡ order_filled)
      × (topic_count ≡ 4)
      × (digit_count ≡ 448))
    ⊎ ((topic ≡ "0x174b3811690657c217184f89418266767c87e4805d09680c39fc9c031c0cab7c")
        × (kind ≡ orders_matched)
        × (topic_count ≡ 3)
        × (digit_count ≡ 256))

kind_of_cases :
    (topic : String) (kind : EventKind)
    → kind_of topic ≡ some kind
    → ((topic ≡ "0xd543adfd945773f1a62f74f0ee55a5e3b9b1a28262980ba90b1a89f2ea84d8ee")
        × (order_filled ≡ kind))
      ⊎ ((topic ≡ "0x174b3811690657c217184f89418266767c87e4805d09680c39fc9c031c0cab7c")
          × (orders_matched ≡ kind))
kind_of_cases topic kind h =
    let filled : String = "0xd543adfd945773f1a62f74f0ee55a5e3b9b1a28262980ba90b1a89f2ea84d8ee" in
    let matched : String = "0x174b3811690657c217184f89418266767c87e4805d09680c39fc9c031c0cab7c" in
    elim (Bool-cases (str_eq topic filled)) [
      | inl same ↦ inl ((eq_iff topic filled).0 same, some-injective _ _ (rw same at h))
      | inr other ↦ elim (Bool-cases (str_eq topic matched)) [
        | inl same ↦ inr ((eq_iff topic matched).0 same, some-injective _ _ (rw (other, same) at h))
        | inr neither ↦ cc (rw (other, neither) at h)
      ]
    ]

pub IsOfKind-named :
    (topic : String) (kind of_event : EventKind) (topic_count digit_count : ℕ)
    → kind_of topic ≡ some kind
    → of_event ≡ kind
    → topic_count ≡ topics_of kind
    → digit_count ≡ digits_of kind
    → IsOfKind topic of_event topic_count digit_count
IsOfKind-named topic order_filled of_event topic_count digit_count named e t d =
    elim (kind_of_cases topic order_filled named) [
      | inl (is_filled, k) ↦ inl (is_filled, e, t, d)
      | inr (is_matched, k) ↦ cc k
    ]
IsOfKind-named topic orders_matched of_event topic_count digit_count named e t d =
    elim (kind_of_cases topic orders_matched named) [
      | inl (is_filled, k) ↦ cc k
      | inr (is_matched, k) ↦ inr (is_matched, e, t, d)
    ]
