-- ===== src/Examples/Scheduling.antt =====
-- The ready queue with process 2.
use xeros_kernel.ReadyQueue.Lists.{replace}
use xeros_kernel.Examples.{none-IsReady, fresh}
use xeros_kernel.ReadyQueue.Spec.{next-takes, make_ready-appends, IsReady}
use xeros_kernel.Process.{running, ready, Kernel}
use xeros_kernel.ReadyQueue.{next, make_ready}
use xeros_kernel.Base.{arith, ◌∷◌, [], refl, ◌≡◌}

make_ready-appends_example :
    (((make_ready 2 fresh).pcbs 2).state ≡ ready)
    × IsReady (make_ready 2 fresh) (replace (λ _. []) 3 (2 ∷ []))
make_ready-appends_example =
    make_ready-appends 2 fresh (λ _. []) none-IsReady (omega arith) (omega arith) (omega arith)
      (λ j h. refl)

-- The kernel with process 2 ready.
abbrev two : Kernel
two = make_ready 2 fresh

two-IsReady : IsReady two (replace (λ _. []) 3 (2 ∷ []))
two-IsReady =
    (make_ready-appends 2 fresh (λ _. []) none-IsReady (omega arith) (omega arith) (omega arith)
      (λ j h. refl)).1

next-takes_example :
    ((next two).0 ≡ 2)
    × (((next two).1.pcbs 2).state ≡ running)
    × IsReady (next two).1 (replace (replace (λ _. []) 3 (2 ∷ [])) 3 [])
next-takes_example =
    next-takes two (replace (λ _. []) 3 (2 ∷ [])) 3 2 [] two-IsReady (omega arith) refl
      (λ j a b. absurd (omega arith))

-- Two processes of one priority run in the order in which they became ready.
in_order : (next (next (make_ready 3 (make_ready 2 fresh))).1).0 ≡ 3
unfolding next make_ready
in_order = refl
