-- ===== src/Examples/Sleeping.antt =====
-- Processes asleep: 2 for 5 ticks, 3 for 5 ticks and 4 for 9.
use xeros_kernel.Sleep.Wake.{tick-wakes}
use xeros_kernel.ReadyQueue.Lists.{replace}
use xeros_kernel.Process.Chain.{Chain}
use xeros_kernel.Sleep.Enter.{go_to_sleep-lost, go_to_sleep-last, MaySleep}
use xeros_kernel.Sleep.{tick, go_to_sleep}
use xeros_kernel.Examples.{fresh}
use xeros_kernel.ReadyQueue.Spec.{IsReady}
use xeros_kernel.Sleep.Delta.{IsDelta, IsAsleep}
use xeros_kernel.Process.{null, sleep, store, Pcb, Kernel, Ptr}
use xeros_kernel.Base.{some, ◌≡◌, refl, [], ◌^◌, arith, ◌∷◌, ◌<◌, List, ℕ}

-- A process of the list.
abbrev asleep : Ptr → Ptr → ℕ → Pcb
asleep back ahead n = record (fresh.pcbs 2) { state = sleep; prev = back; next = ahead; tick = n }

abbrev three_asleep : Kernel
three_asleep = record fresh {
  pcbs = store (store (store fresh.pcbs 2 (asleep null 3 5)) 3 (asleep 2 4 0)) 4 (asleep 3 null 4);
  dl = 2;
}

abbrev sleepers : List (Ptr × ℕ)
sleepers = (2, 5) ∷ (3, 0) ∷ (4, 4) ∷ []

awake : (back ahead n : ℕ) → IsAsleep (asleep back ahead n)
awake back ahead n = record { state = refl; priority = omega arith; pid = omega arith }

three_asleep-IsDelta : IsDelta three_asleep sleepers
three_asleep-IsDelta = record {
  list = (
    refl,
    omega arith,
    refl,
    refl,
    awake null 3 5,
    (
      refl,
      omega arith,
      refl,
      refl,
      awake 2 4 0,
      (refl, omega arith, refl, refl, awake 3 null 4, refl),
    ),
  );
  distinct = (refl, (refl, (refl, tt)));
}

may_sleep : (ms : ℕ) → ms < 2 ^ 32 → MaySleep three_asleep 5 ms sleepers
may_sleep ms h = record {
  not_null = omega arith;
  priority = omega arith;
  pid = omega arith;
  range = h;
  out = refl;
  list = three_asleep-IsDelta;
}

go_to_sleep-last_example :
    (k' : Kernel) × (go_to_sleep 9 5 200 three_asleep ≡ some k')
    × IsDelta k' ((2, 5) ∷ (3, 0) ∷ (4, 4) ∷ (5, 11) ∷ [])
go_to_sleep-last_example =
    go_to_sleep-last 9 5 200 three_asleep 2 5 ((3, 0) ∷ (4, 4) ∷ []) (may_sleep 200 (omega arith))
      (omega arith) (omega arith)

go_to_sleep-lost_example :
    (k' : Kernel) × (go_to_sleep 9 5 70 three_asleep ≡ some k')
    × ((k'.pcbs 5).state ≡ sleep)
    × Chain k'.pcbs k'.dl (2 ∷ 3 ∷ 4 ∷ [])
go_to_sleep-lost_example =
    go_to_sleep-lost 8 5 70 three_asleep 2 5 ((3, 0) ∷ []) 4 4 [] (may_sleep 70 (omega arith))
      (omega arith) (omega arith) (omega arith)

-- The same processes when a tick is left to the first.
abbrev due : Kernel
due = record three_asleep { pcbs = store three_asleep.pcbs 2 (asleep null 3 1) }

three_asleep-IsReady : IsReady three_asleep (λ _. [])
three_asleep-IsReady i h = record {
  chain = refl;
  last = λ nz. absurd (nz refl);
  members = tt;
  distinct = tt;
}

due-IsReady : IsReady due (λ _. [])
due-IsReady i h = record {
  chain = refl;
  last = λ nz. absurd (nz refl);
  members = tt;
  distinct = tt;
}

due-IsDelta : IsDelta due ((2, 1) ∷ (3, 0) ∷ (4, 4) ∷ [])
due-IsDelta = record {
  list = (
    refl,
    omega arith,
    refl,
    refl,
    awake null 3 1,
    (
      refl,
      omega arith,
      refl,
      refl,
      awake 2 4 0,
      (refl, omega arith, refl, refl, awake 3 null 4, refl),
    ),
  );
  distinct = (refl, (refl, (refl, tt)));
}

tick-wakes_example :
    (k' : Kernel) × (tick 9 due ≡ some k')
    × IsDelta k' ((4, 4) ∷ [])
    × IsReady k' (replace (replace (λ _. []) 3 (2 ∷ [])) 3 (2 ∷ 3 ∷ []))
tick-wakes_example =
    tick-wakes 9 due 2 (3 ∷ []) ((4, 4) ∷ []) (λ _. []) (omega arith) due-IsDelta (omega arith)
      due-IsReady
