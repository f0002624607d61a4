-- ===== src/Semaphores/Stale.antt =====
-- `unblockProcess` takes the first process off a list and leaves the `prev` field of the second.
-- `removeFromBlockQueue` takes that field for a sign that the process is not at the front.
use xeros_kernel.Semaphores.Wake.{advanced, v_kern-make_ready, v_kern-wakes}
use xeros_kernel.ReadyQueue.Link.{IsQueue}
use xeros_kernel.ReadyQueue.Spec.{make_ready-untouched, IsReady}
use xeros_kernel.Semaphores.Lists.{IsSemaphore}
use xeros_kernel.ReadyQueue.Lists.{not-mem-Members, Queues}
use xeros_kernel.ReadyQueue.{unlink}
use xeros_kernel.Process.{ready, blocked, pq_size, null, Ptr, Kernel}
use xeros_kernel.Semaphores.{v_kern, num_semaphores, remove_from_block_queue}
use xeros_kernel.Base.{
  sym, refl, inr, ◌∉◌, ==_self, subst, ◌∙◌, [], ◌∷◌, arith, ◌≡◌, ◌<◌, ◌≢◌, List, ℕ,
}

remove-head :
    (p : Ptr) (k : Kernel) (n i : ℕ)
    → (k.pcbs p).prev ≢ null
    → ((remove_from_block_queue p k).semaphores n).queue.head i ≡ (k.semaphores n).queue.head i
unfolding remove_from_block_queue unlink
remove-head p k n i ne = ground arith

-- If x and y are the first blocked processes of the highest priority that has one, x not the idle
-- process, and y's `prev` field is x, then after `V_kern` has made x ready, `removeFromBlockQueue`
-- for y leaves y at the head of the list.
pub second_stays :
    (n : ℕ) (k : Kernel) (qs rs : Queues) (i x y : ℕ) (ys : List Ptr)
    → n < num_semaphores
    → IsSemaphore k n qs
    → IsReady k rs
    → i < pq_size
    → qs i ≡ x ∷ y ∷ ys
    → ((j : ℕ) → i < j → j < pq_size → qs j ≡ [])
    → (k.pcbs x).pid ≢ 0
    → (k.pcbs y).prev ≡ x
    → ((remove_from_block_queue y (v_kern n k).1).semaphores n).queue.head i ≡ y
second_stays n k qs rs i x y ys h w r small e above not_idle p =
    remove-head y (v_kern n k).1 n i (rw (untouched, p) at.chain.1) ∙ front.chain.0
  where
    at : IsQueue blocked k.pcbs (k.semaphores n).queue i (x ∷ y ∷ ys)
    at = subst (IsQueue blocked k.pcbs (k.semaphores n).queue i) e (w.waiting i small)

    next : Kernel
    next = (v_kern n k).1

    front : IsQueue blocked next.pcbs (next.semaphores n).queue i (y ∷ ys)
    front =
        subst (IsQueue blocked next.pcbs (next.semaphores n).queue i) (rw (==_self i) refl)
          ((v_kern-wakes n k qs rs i x (y ∷ ys) h w r small e above not_idle).2.waiting i small)

    asleep : (a : Ptr) → (k.pcbs a).state ≡ blocked → (j : ℕ) → j < pq_size → a ∉ rs j
    asleep a b j l = not-mem-Members ready k.pcbs j (rs j) a (r j l).members (inr λ z. ground arith)

    untouched : next.pcbs y ≡ k.pcbs y
    untouched =
        subst (λ z. z.1.pcbs y ≡ k.pcbs y)
          (sym (v_kern-make_ready n k qs i x (y ∷ ys) h w small e above))
          (make_ready-untouched x (advanced n i k) rs y r not_idle (rw at.members.0.0 small)
            (asleep x at.members.0.1) (ground (arith, at.distinct))
            (rw at.members.0.0 (asleep y at.members.1.0.1 i small)))
