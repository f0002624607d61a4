-- ===== src/Create/Fresh.antt =====
-- What c/create.c makes: a process that is ready, in a slot that no list holds.
use xeros_kernel.ReadyQueue.Pids.{make_ready-pid}
use xeros_kernel.ReadyQueue.{make_ready}
use xeros_kernel.ReadyQueue.Link.{IsQueue-frame}
use xeros_kernel.Create.Slots.{free_slot_from-IsStopped, IsStopped}
use xeros_kernel.ReadyQueue.Spec.{make_ready-appends, IsReady}
use xeros_kernel.Memory.{kmalloc, Heap}
use xeros_kernel.System.{with_kernel, System, Env}
use xeros_kernel.ReadyQueue.Lists.{replace, AreQueues, Queues}
use xeros_kernel.Create.{
  new_pcb, fill_slot, free_slot_from, get_free_pcb_slot, start_process, create,
}
use xeros_kernel.Process.{
  pcb_table_size, Kernel, null, store, pq_size, Pcb, ready, Ptr, PrioQueue, Pcbs,
}
use xeros_kernel.Base.{
  subst, ap, ◌∙◌, sym, ==_self, ==_ne, ◌++◌, inr, refl, some, mem_ne, All-mem, ◌≡◌, arith, inl, has,
  Bool-cases, ◌≢◌, ◌∉◌, ◌<◌, ℕ, [], ◌∷◌,
}

stopped_out :
    (t : Pcbs) (q : PrioQueue) (qs : Queues) (p j : ℕ)
    → AreQueues ready t q qs
    → j < pq_size
    → IsStopped t p
    → p ∉ qs j
stopped_out t q qs p j w h b = elim (Bool-cases (has p (qs j))) [
  | inl m ↦ absurd (
      ground (
        arith,
        (All-mem (λ x. ((t x).priority ≡ j) × ((t x).state ≡ ready)) p (qs j) (w j h).members m).1,
        b,
      ))
  | inr m ↦ m
]

AreQueues-store :
    (t : Pcbs) (q : PrioQueue) (qs : Queues) (p : Ptr) (c : Pcb)
    → AreQueues ready t q qs
    → ((j : ℕ) → j < pq_size → p ∉ qs j)
    → AreQueues ready (store t p c) q qs
AreQueues-store t q qs p c w out j h =
    IsQueue-frame _ _ (w j h) refl refl λ a m. ground (arith, mem_ne a p (qs j) m (out j h))

pub create-eq :
    (e : Env) (f func stack addr : ℕ) (h : Heap) (s : System)
    → get_free_pcb_slot s.kernel.pcbs ≢ null
    → kmalloc f stack s.heap ≡ some (addr, h)
    → addr ≢ null
    → create e f func stack s
      ≡ some (
          start_process e (get_free_pcb_slot s.kernel.pcbs) addr func stack (record s { heap = h }))
unfolding create
create-eq e f func stack addr h s slot got ok = rw (==_ne _ _ slot, got, ==_ne _ _ ok) refl

module _ (e : Env) (p addr func stack : ℕ) (k : Kernel) (qs : Queues) where
  filled : Kernel
  filled = fill_slot e p addr func stack k

  filled-pid : (filled.pcbs p).pid ≡ k.pcb_id
  unfolding filled new_pcb
  filled-pid = rw (==_self p) refl

  filled-priority : (filled.pcbs p).priority ≡ 3
  unfolding filled new_pcb
  filled-priority = rw (==_self p) refl

  filled-IsReady : IsReady k qs → IsStopped k.pcbs p → IsReady filled qs
  unfolding filled
  filled-IsReady w b =
      AreQueues-store k.pcbs k.ready_queue qs p _ w
        (λ j h. stopped_out k.pcbs k.ready_queue qs p j w h b)

  started :
      IsReady k qs
      → IsStopped k.pcbs p
      → p ≢ null
      → k.pcb_id ≢ 0
      → (((make_ready p filled).pcbs p).pid ≡ k.pcb_id)
        × (((make_ready p filled).pcbs p).state ≡ ready)
        × IsReady (make_ready p filled) (replace qs 3 (qs 3 ++ p ∷ []))
  started w b nz id = (
    make_ready-pid p p filled ∙ filled-pid,
    r.0,
    subst (λ i. IsReady (make_ready p filled) (replace qs i (qs i ++ p ∷ []))) filled-priority r.1,
  )
    where
      r :
          (((make_ready p filled).pcbs p).state ≡ ready)
          × IsReady
              (make_ready p filled)
              (replace qs (filled.pcbs p).priority (qs (filled.pcbs p).priority ++ p ∷ []))
      r =
          make_ready-appends p filled qs (filled-IsReady w b) (λ z. id (sym filled-pid ∙ z)) nz
            (ground (arith, filled-priority)) (λ j h. stopped_out k.pcbs k.ready_queue qs p j w h b)

-- If the table has a free slot, `kmalloc` finds a stack, and the next pid is not 0, `create`
-- returns that pid, the slot was stopped, and the process in it has the pid, is ready and stands
-- at the end of the ready list of priority 3; the other lists stay.
pub create-ready :
    (e : Env) (f func stack addr : ℕ) (h : Heap) (s : System) (qs : Queues)
    → IsReady s.kernel qs
    → get_free_pcb_slot s.kernel.pcbs ≢ null
    → kmalloc f stack s.heap ≡ some (addr, h)
    → addr ≢ null
    → s.kernel.pcb_id ≢ 0
    → let p = get_free_pcb_slot s.kernel.pcbs in
      IsStopped s.kernel.pcbs p
      × (s' : System) × (create e f func stack s ≡ some (s.kernel.pcb_id, s'))
      × ((s'.kernel.pcbs p).pid ≡ s.kernel.pcb_id)
      × ((s'.kernel.pcbs p).state ≡ ready)
      × IsReady s'.kernel (replace qs 3 (qs 3 ++ p ∷ []))
unfolding get_free_pcb_slot start_process filled
create-ready e f func stack addr h s qs w slot got addr_ok id =
    let p = free_slot_from pcb_table_size 1 s.kernel.pcbs in
    let (b, _, _) = free_slot_from-IsStopped pcb_table_size 1 s.kernel.pcbs slot in
    let (same, state, lists) = started e p addr func stack s.kernel qs w b slot id in
    (
      b,
      with_kernel (record s { heap = h }) (make_ready p (fill_slot e p addr func stack s.kernel)),
      create-eq e f func stack addr h s slot got addr_ok
          ∙ ap
              (λ i. some (
                i,
                with_kernel (record s { heap = h })
                    (make_ready p (fill_slot e p addr func stack s.kernel)),
              ))
              same,
      same,
      state,
      lists,
    )
