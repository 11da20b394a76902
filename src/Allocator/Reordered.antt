-- ===== src/Allocator/Reordered.antt =====
-- Lists of allocations up to order (hpc_batch/resources.py: `ResourcePool`, whose books do not keep
-- the order in which allocations were taken).
use hpc_batch.Base.{
  ℕ, ◌+◌, ◌≡◌, refl, sym, ◌∙◌, ap, Bool, List, [], ◌∷◌, ◌++◌, arith, length, any, ltb, sum_by,
}
use hpc_batch.Pool.{Allocation, ResourcePool}
use hpc_batch.Allocator.Ledger.{bit, holds_cpu, holds_gpu, IsLedger}
use hpc_batch.Allocator.{charge_domains}
use hpc_batch.Base.Dict.{get_or}

-- Whatever is counted over the one list, the other has as much of it.
abbrev pub Reordered : List Allocation → List Allocation → Type 0
Reordered xs ys = (f : Allocation → ℕ) → sum_by f xs ≡ sum_by f ys

pub sum_by-append :
    (f : Allocation → ℕ) (xs ys : List Allocation) → sum_by f (xs ++ ys) ≡ sum_by f xs + sum_by f ys
unfolding sum_by
sum_by-append f [] ys = omega arith
sum_by-append f (x ∷ xs) ys = omega (arith, sum_by-append f xs ys)

pub length-sum_by : (xs : List Allocation) → length xs ≡ sum_by (λ _. 1) xs
unfolding sum_by
length-sum_by [] = refl
length-sum_by (x ∷ xs) = omega (arith, length-sum_by xs)

pub any-sum_by :
    (f : Allocation → Bool) (xs : List Allocation) → any f xs ≡ ltb 0 (sum_by (λ a. bit (f a)) xs)
unfolding any sum_by bit
any-sum_by f [] = ground arith
any-sum_by f (x ∷ xs) = ground (arith, any-sum_by f xs)

pub length-Reordered : (xs ys : List Allocation) → Reordered xs ys → length xs ≡ length ys
length-Reordered xs ys same = length-sum_by xs ∙ same (λ _. 1) ∙ sym (length-sum_by ys)

any-Reordered :
    (f : Allocation → Bool) (xs ys : List Allocation) → Reordered xs ys → any f xs ≡ any f ys
any-Reordered f xs ys same =
    any-sum_by f xs ∙ ap (ltb 0) (same (λ a. bit (f a))) ∙ sym (any-sum_by f ys)

-- The ledger of a pool does not depend on the order of what is out.
pub IsLedger-Reordered :
    (p : ResourcePool) (xs ys : List Allocation) → Reordered xs ys → IsLedger p xs → IsLedger p ys
IsLedger-Reordered p xs ys same l = record {
  sound = l.sound;
  split = l.split;
  nodes = l.nodes;
  gpus = λ x. omega (arith, l.gpus x, same (λ a. bit (holds_gpu x a)));
  cpus = λ n x. omega (arith, l.cpus n x, same (λ a. bit (holds_cpu p n x a)));
  memory = λ k. omega (arith, l.memory k, same (λ a. get_or (charge_domains p a) k 0));
  active = l.active ∙ length-Reordered xs ys same;
  exclusive = l.exclusive ∙ any-Reordered _ xs ys same;
  alone = λ h. sym (length-Reordered xs ys same) ∙ l.alone (any-Reordered _ xs ys same ∙ h);
}
