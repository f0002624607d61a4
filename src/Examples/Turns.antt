-- ===== src/Examples/Turns.antt =====
-- Processes that take turns, and a new one.
use xeros_kernel.Create.Stack.{IsBeyond}
use xeros_kernel.Create.Ends.{cleanup-create}
use xeros_kernel.Memory.Apart.{IsFree}
use xeros_kernel.Examples.Allocating.{heap-IsFree, heap}
use xeros_kernel.Create.Fresh.{create-ready}
use xeros_kernel.Create.Inherits.{create-Inherited, Inherited}
use xeros_kernel.Process.{stopped, null, zero_pcb, ready}
use xeros_kernel.ReadyQueue.Lists.{replace}
use xeros_kernel.Examples.{none-IsReady, fresh}
use xeros_kernel.Create.Slots.{IsStopped}
use xeros_kernel.Dispatch.RoundRobin.{yields-reaches, yields, IsRunning}
use xeros_kernel.Examples.Booting.{env, power_on}
use xeros_kernel.Memory.{
  is_outside, take_part, take_whole, rewind, reallocate_mem_ptr, kmeminit, detach_slot,
  allocate_mem_slot, hand_out, mem_size, find_mem_slot, kmalloc, Heap,
}
use xeros_kernel.Create.{cleanup, free_slot_from, create, get_free_pcb_slot}
use xeros_kernel.ReadyQueue.Spec.{make_ready-appends, IsReady}
use xeros_kernel.ReadyQueue.{make_ready}
use xeros_kernel.System.{Env, layout_of, System}
use xeros_kernel.Base.{◌≢◌, ◌==◌, arith, if◌then◌else◌, none, some, ◌≡◌, refl, Option, ℕ, [], ◌∷◌}

-- Process 3 runs and process 2 is ready.
abbrev taking_turns : System
taking_turns = record power_on { kernel = make_ready 2 fresh }

IsRunning-taking_turns : IsRunning taking_turns (replace (λ _. []) 3 (2 ∷ [])) 3 3
unfolding make_ready
IsRunning-taking_turns = record {
  lists =
      (make_ready-appends 2 fresh (λ _. []) none-IsReady (omega arith) (omega arith) (omega arith)
        (λ j h. refl)).1;
  not_null = omega arith;
  not_idle = omega arith;
  priority = refl;
  out = λ j h. ground (arith, h);
  busy = (omega arith, tt);
}

yields-reaches_example : (s' : System) × (yields 1 env 5 3 taking_turns ≡ some (2, s'))
yields-reaches_example =
    yields-reaches [] [] env 5 taking_turns (replace (λ _. []) 3 (2 ∷ [])) 3 3 2
      IsRunning-taking_turns (omega arith) refl (λ j a b. absurd (omega arith))

-- A table whose entry 5 is free, and fresh memory.
abbrev one_free : System
one_free = record power_on {
  kernel = record fresh { pcbs = λ p. if p == 5 then zero_pcb else fresh.pcbs p };
  heap = kmeminit (layout_of env) power_on.heap.headers;
}

one_free-IsReady : IsReady one_free.kernel (λ _. [])
one_free-IsReady i h = record {
  chain = refl;
  last = λ nz. absurd (nz refl);
  members = tt;
  distinct = tt;
}

slot_5 : get_free_pcb_slot one_free.kernel.pcbs ≡ 5
unfolding get_free_pcb_slot free_slot_from
slot_5 = refl

abbrev stack_of : Option (ℕ × Heap) → ℕ × Heap
stack_of none = (0, power_on.heap)
stack_of (some r) = r

abbrev new_stack : ℕ × Heap
new_stack = stack_of (kmalloc 5 512 one_free.heap)

got : kmalloc 5 512 one_free.heap ≡ some new_stack
unfolding kmalloc find_mem_slot mem_size hand_out allocate_mem_slot detach_slot reallocate_mem_ptr
    rewind take_whole take_part kmeminit
got = refl

got_address : new_stack.0 ≢ null
unfolding kmalloc find_mem_slot mem_size hand_out allocate_mem_slot detach_slot reallocate_mem_ptr
    rewind take_whole take_part kmeminit
got_address = omega arith

create-ready_example :
    let p = get_free_pcb_slot one_free.kernel.pcbs in
    IsStopped one_free.kernel.pcbs p
    × (s' : System) × (create env 5 768 512 one_free ≡ some (9, s'))
    × ((s'.kernel.pcbs p).pid ≡ 9)
    × ((s'.kernel.pcbs p).state ≡ ready)
    × IsReady s'.kernel (replace (λ _. []) 3 (p ∷ []))
create-ready_example =
    create-ready env 5 768 512 new_stack.0 new_stack.1 one_free (λ _. []) one_free-IsReady
      (λ z. absurd (omega (arith, slot_5, z))) got got_address (omega arith)

create-Inherited_example :
    let p = get_free_pcb_slot one_free.kernel.pcbs in
    (pid : ℕ) × (s' : System) × (create env 5 768 512 one_free ≡ some (pid, s'))
    × Inherited (s'.kernel.pcbs p) (one_free.kernel.pcbs p)
create-Inherited_example =
    create-Inherited env 5 768 512 new_stack.0 new_stack.1 one_free
      (λ z. absurd (omega (arith, slot_5, z))) got got_address

-- Every entry of the table is in use.
abbrev taking_full : System
taking_full = record power_on { kernel = fresh }

-- The same table, and the heap with three free blocks.
abbrev roomy : System
roomy = record one_free { heap = heap }

abbrev roomy_env : Env
roomy_env = record env { freemem = 4096 }

cleanup-create_example :
    let p = get_free_pcb_slot roomy.kernel.pcbs in
    (pid : ℕ) × (s' : System) × (s'' : System) × (create roomy_env 3 768 5000 roomy
      ≡ some (pid, s'))
    × ((b : ℕ) → IsBeyond 16400 (mem_size 5000) b → s'.kernel.words b ≡ roomy.kernel.words b)
    × (cleanup roomy_env 3 p s' ≡ some s'')
    × IsFree s''.heap ((4096, 4000) ∷ (16384, 20000) ∷ (65536, 4096) ∷ [])
    × ((s''.kernel.pcbs p).state ≡ stopped)
unfolding mem_size is_outside
cleanup-create_example =
    cleanup-create roomy_env 3 768 5000 roomy ((4096, 4000) ∷ []) 16384 20000 ((65536, 4096) ∷ [])
      (λ z. absurd (omega (arith, slot_5, z))) heap-IsFree (omega arith) (omega arith, tt)
      (omega arith) refl (omega arith) (omega arith)
