-- ===== src/Create/Slots.antt =====
-- `getFreePCBSlot` of c/create.c: the first stopped entry of the table, if there is one.
use xeros_kernel.Semaphores.{failed}
use xeros_kernel.System.{System, Env}
use xeros_kernel.Wait.{is_stopped}
use xeros_kernel.Create.{get_free_pcb_slot, create, free_slot_from}
use xeros_kernel.Process.{pcb_table_size, null, Ptr, Pcbs}
use xeros_kernel.Base.{
  inr, inl, Bool-cases, refl, zero, some, arith, false, suc, ◌+◌, true, ◌<◌, ◌≡◌, ◌≤◌, ◌≢◌, ℕ,
}

abbrev pub IsStopped : Pcbs → Ptr → Type 0
IsStopped t p = is_stopped (t p).state ≡ true

pub free_slot_from-IsStopped :
    (n i : ℕ) (t : Pcbs)
    → free_slot_from n i t ≢ null
    → IsStopped t (free_slot_from n i t)
      × (i ≤ free_slot_from n i t)
      × (free_slot_from n i t < i + n)
unfolding free_slot_from
free_slot_from-IsStopped zero i t h = absurd (h refl)
free_slot_from-IsStopped (suc n) i t h = elim (Bool-cases (is_stopped (t i).state)) [
  | inl b ↦ rw b (b, omega arith, omega arith)
  | inr b ↦
      let (s, l, m) = free_slot_from-IsStopped n (suc i) t (λ z. h (rw b z)) in
      rw b (s, omega (arith, l), omega (arith, m))
]

pub free_slot_from-none :
    (n i : ℕ) (t : Pcbs)
    → ((p : Ptr) → i ≤ p → p < i + n → is_stopped (t p).state ≡ false)
    → free_slot_from n i t ≡ null
unfolding free_slot_from
free_slot_from-none zero i t h = refl
free_slot_from-none (suc n) i t h =
    rw (h i (omega arith) (omega arith))
      (free_slot_from-none n (suc i) t (λ p l m. h p (omega arith) (omega arith)))

-- If no entry of the table is stopped, `create` fails and changes nothing.
create-full :
    (e : Env) (f func stack : ℕ) (s : System)
    → ((p : Ptr) → 1 ≤ p → p ≤ pcb_table_size → is_stopped (s.kernel.pcbs p).state ≡ false)
    → create e f func stack s ≡ some (failed, s)
unfolding create get_free_pcb_slot
create-full e f func stack s h =
    rw (free_slot_from-none pcb_table_size 1 s.kernel.pcbs (λ p l m. h p l (omega arith))) refl
