-- ===== src/Examples/Blocking.antt =====
-- Semaphore 0 with processes 2 and 3.
use xeros_kernel.Semaphores.Exclusion.{p_kern-p_kern}
use xeros_kernel.Semaphores.Wake.{v_kern-wakes}
use xeros_kernel.Semaphores.Count.{counted}
use xeros_kernel.Semaphores.Stale.{second_stays}
use xeros_kernel.ReadyQueue.{link_last}
use xeros_kernel.Examples.{none-IsReady, none_blocked, fresh}
use xeros_kernel.ReadyQueue.Spec.{IsReady}
use xeros_kernel.Semaphores.Lists.{p_kern-blocks, IsSemaphore}
use xeros_kernel.Process.{Kernel}
use xeros_kernel.Semaphores.{remove_from_block_queue, succeed, blocked_rc, v_kern, p_kern}
use xeros_kernel.ReadyQueue.Lists.{replace, Queues}
use xeros_kernel.Base.{refl, arith, ◌∷◌, ◌≡◌, []}

abbrev no_queues : Queues
no_queues = λ _. []

p_kern-blocks_example :
    ((p_kern 0 2 fresh).0 ≡ blocked_rc)
    × (((p_kern 0 2 fresh).1.pcbs 2).sem_no ≡ 0)
    × IsSemaphore (p_kern 0 2 fresh).1 0 (replace no_queues 3 (2 ∷ []))
    × IsReady (p_kern 0 2 fresh).1 no_queues
p_kern-blocks_example =
    p_kern-blocks 0 2 fresh no_queues no_queues (omega arith) none_blocked none-IsReady refl
      (omega arith) (omega arith) (λ j h. (refl, refl))

-- The kernel with one on semaphore 0.
abbrev one : Kernel
one = counted 0 1 fresh

one-IsSemaphore : IsSemaphore one 0 no_queues
one-IsSemaphore = record {
  waiting = none_blocked.waiting;
  small = omega arith;
  free = λ _ i h. refl;
}

-- Process 2 waits on semaphore 0, and then process 3 too.
abbrev waiting_one : Kernel
waiting_one = (p_kern 0 2 fresh).1

waiting_one-IsSemaphore : IsSemaphore waiting_one 0 (replace no_queues 3 (2 ∷ []))
waiting_one-IsSemaphore =
    (p_kern-blocks 0 2 fresh no_queues no_queues (omega arith) none_blocked none-IsReady refl
      (omega arith) (omega arith) (λ j h. (refl, refl))).2

waiting_one-IsReady : IsReady waiting_one no_queues
waiting_one-IsReady =
    (p_kern-blocks 0 2 fresh no_queues no_queues (omega arith) none_blocked none-IsReady refl
      (omega arith) (omega arith) (λ j h. (refl, refl))).3

v_kern-wakes_example :
    ((v_kern 0 waiting_one).0 ≡ succeed)
    × (((v_kern 0 waiting_one).1.semaphores 0).value ≡ 0)
    × IsSemaphore (v_kern 0 waiting_one).1 0 (replace (replace no_queues 3 (2 ∷ [])) 3 [])
    × IsReady (v_kern 0 waiting_one).1 (replace no_queues 3 (2 ∷ []))
unfolding p_kern link_last
v_kern-wakes_example =
    v_kern-wakes 0 waiting_one (replace no_queues 3 (2 ∷ [])) no_queues 3 2 [] (omega arith)
      waiting_one-IsSemaphore waiting_one-IsReady (omega arith) refl (λ j a b. absurd (omega arith))
      (omega arith)

abbrev waiting_two : Kernel
waiting_two = (p_kern 0 3 waiting_one).1

abbrev both : Queues
both = replace (replace no_queues 3 (2 ∷ [])) 3 (2 ∷ 3 ∷ [])

waiting_two_lem : IsSemaphore waiting_two 0 both × IsReady waiting_two no_queues
unfolding p_kern link_last
waiting_two_lem = (blocks.2, blocks.3)
  where
    blocks :
        ((p_kern 0 3 waiting_one).0 ≡ blocked_rc)
        × (((p_kern 0 3 waiting_one).1.pcbs 3).sem_no ≡ 0)
        × IsSemaphore (p_kern 0 3 waiting_one).1 0 both
        × IsReady (p_kern 0 3 waiting_one).1 no_queues
    blocks =
        p_kern-blocks 0 3 waiting_one (replace no_queues 3 (2 ∷ [])) no_queues (omega arith)
          waiting_one-IsSemaphore waiting_one-IsReady refl (omega arith) (omega arith)
          (λ j h. (ground arith, refl))

second_stays_example :
    ((remove_from_block_queue 3 (v_kern 0 waiting_two).1).semaphores 0).queue.head 3 ≡ 3
unfolding p_kern link_last
second_stays_example =
    second_stays 0 waiting_two both no_queues 3 2 3 [] (omega arith) waiting_two_lem.0
      waiting_two_lem.1 (omega arith) refl (λ j a b. absurd (omega arith)) (omega arith) refl

p_kern-p_kern_example :
    let first = p_kern 0 3 one in
    let second = p_kern 0 2 first.1 in
    let last = v_kern 0 second.1 in
    (first.0 ≡ succeed)
    × (second.0 ≡ blocked_rc)
    × (last.0 ≡ succeed)
    × ((last.1.semaphores 0).value ≡ 0)
    × IsSemaphore last.1 0 no_queues
    × IsReady last.1 (replace no_queues 3 (2 ∷ []))
p_kern-p_kern_example =
    p_kern-p_kern 0 3 2 one no_queues (omega arith) one-IsSemaphore none-IsReady refl (omega arith)
      (omega arith) (omega arith) (λ j h. refl)
