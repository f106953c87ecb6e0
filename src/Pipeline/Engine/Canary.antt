-- ===== src/Pipeline/Engine/Canary.antt =====
-- Canary sampling: widening a rollout keeps every request that it already had.
use mcpdoll.Base.{ℕ, ◌≤◌, Str, true, ◌≡◌, arith}
use mcpdoll.Pipeline.Engine.{hash_sample}

-- A request in the sample at a percentage is in it at every higher one; at 0 none is, and from
-- 100 on all are.
pub hash_sample_mono :
    (id : Str) (p q : ℕ) → p ≤ q → hash_sample id p ≡ true → hash_sample id q ≡ true
unfolding hash_sample
hash_sample_mono id p q h k = ground arith
