-- ===== src/Rpc/Ensures.antt =====
-- What holds of the value of a reply, step by step through a chain of checks.
use mathlib.Core.Path.{subst}
use oddsfox_pipeline.Base.{ℕ, Bool, true, false, not, ◌≡◌, refl}
use oddsfox_pipeline.Rpc.Batches.{Reply, done, size_limit, failed}
use oddsfox_pipeline.Rpc.Provider.{◌>>=◌, ◌>>◌, fail_if}
use oddsfox_pipeline.Rpc.Envelopes.{done-injective}

-- What holds of a value, if there is one.
abbrev pub Ensures : {A : Type 0} → (A → Type 0) → Reply A → Type 0
Ensures P (done a) = P a
Ensures P size_limit = Unit {0}
Ensures P (failed e) = Unit {0}

pub >>=-Ensures :
    {A B : Type 0} (P : B → Type 0) (m : Reply A) (f : A → Reply B)
    → ((a : A) → m ≡ done a → Ensures P (f a))
    → Ensures P (m >>= f)
>>=-Ensures P (done a) f h = h a refl
>>=-Ensures P size_limit f h = tt
>>=-Ensures P (failed e) f h = tt

pub guarded-Ensures :
    {A B : Type 0} (P : B → Type 0) (b : Bool) (e : ℕ) (m : Reply A) (f : A → Reply B)
    → (b ≡ false → (a : A) → m ≡ done a → Ensures P (f a))
    → Ensures P (fail_if b e >> m >>= f)
guarded-Ensures P true e m f h = tt
guarded-Ensures P false e (done a) f h = h refl a refl
guarded-Ensures P false e size_limit f h = tt
guarded-Ensures P false e (failed code) f h = tt

pub last-Ensures :
    (P : Unit {0} → Type 0) (b : Bool) (e : ℕ) → (b ≡ false → P tt) → Ensures P (fail_if b e)
last-Ensures P true e h = tt
last-Ensures P false e h = h refl

pub both-Ensures :
    (P Q : Unit {0} → Type 0) (m n : Reply (Unit {0}))
    → Ensures P m
    → Ensures Q n
    → Ensures (λ u. P u × Q u) (m >> n)
both-Ensures P Q (done u) (done v) p q = (p, q)
both-Ensures P Q (done u) size_limit p q = tt
both-Ensures P Q (done u) (failed e) p q = tt
both-Ensures P Q size_limit n p q = tt
both-Ensures P Q (failed e) n p q = tt

pub Ensures-weaken :
    {A : Type 0} (Q P : A → Type 0) (r : Reply A)
    → Ensures Q r
    → ((a : A) → Q a → P a)
    → Ensures P r
Ensures-weaken Q P (done a) q h = h a q
Ensures-weaken Q P size_limit q h = tt
Ensures-weaken Q P (failed e) q h = tt

pub Ensures-done :
    {A : Type 0} (P : A → Type 0) (r : Reply A) {a : A} → Ensures P r → r ≡ done a → P a
Ensures-done P (done b) h e = subst P (done-injective e) h
Ensures-done P size_limit h e = cc
Ensures-done P (failed code) h e = cc

pub not-eq-false : (b : Bool) → not b ≡ false → b ≡ true
not-eq-false true h = refl
not-eq-false false h = cc
