-- ===== src/Rpc/Kept.antt =====
-- What a batch that was split leaves as it was.
use oddsfox_pipeline.Base.{ℕ, zero, suc, ◌/◌, List, Bool, true, false, length, leb, take, drop}
use oddsfox_pipeline.Rpc.Batches.{
  Reply, done, size_limit, failed, on_size_limit, prepend, concat, adaptive_batch_call,
}

-- What holds of the state after each request holds of it after a batch that was split.
module _ {S Value : Type 0} (P : S → Type 0) where
  prepend-keeps : (left : List Value) (r : Reply (List Value) × S) → P r.1 → P (prepend left r).1
  prepend-keeps left (done a, s) p = p
  prepend-keeps left (size_limit, s) p = p
  prepend-keeps left (failed e, s) p = p

  concat-keeps :
      (r : Reply (List Value) × S) (rest : S → Reply (List Value) × S)
      → P r.1
      → ((s : S) → P s → P (rest s).1)
      → P (concat r rest).1
  concat-keeps (done a, s) rest p k = prepend-keeps a (rest s) (k s p)
  concat-keeps (size_limit, s) rest p k = p
  concat-keeps (failed e, s) rest p k = p

  on_size_limit-keeps :
      (r : Reply (List Value) × S) (handler : S → Reply (List Value) × S)
      → P r.1
      → ((s : S) → P s → P (handler s).1)
      → P (on_size_limit r handler).1
  on_size_limit-keeps (done a, s) handler p k = p
  on_size_limit-keeps (size_limit, s) handler p k = k s p
  on_size_limit-keeps (failed e, s) handler p k = p

  unless-keeps :
      (few : Bool) (s : S) (r : Reply (List Value) × S)
      → P s
      → P r.1
      → P (elim few as (λ few. Reply (List Value) × S) [ true ↦ (size_limit, s) | false ↦ r ]).1
  unless-keeps true s r p k = p
  unless-keeps false s r p k = k

  pub adaptive_batch_call-keeps :
      {Call : Type 0} (batch_call : List Call → S → Reply (List Value) × S)
      → ((calls : List Call) (s : S) → P s → P (batch_call calls s).1)
      → (depth : ℕ) (calls : List Call) (s : S) → P s
      → P (adaptive_batch_call batch_call depth calls s).1
  unfolding adaptive_batch_call
  adaptive_batch_call-keeps batch_call step zero calls s p = step calls s p
  adaptive_batch_call-keeps batch_call step (suc depth) calls s p =
      on_size_limit-keeps (batch_call calls s) _ (step calls s p) λ s' p'.
        unless-keeps (leb (length calls) 1) s' _ p' (
          concat-keeps (adaptive_batch_call batch_call depth (take (length calls / 2) calls) s')
            (adaptive_batch_call batch_call depth (drop (length calls / 2) calls))
            (adaptive_batch_call-keeps batch_call step depth (take (length calls / 2) calls) s' p')
            (adaptive_batch_call-keeps batch_call step depth (drop (length calls / 2) calls)))
