-- ===== src/Priority/Sleepers.antt =====
-- Sleep and `tick` keep the priorities.
use xeros_kernel.Priority.Lists.{make_ready-same}
use xeros_kernel.Priority.{
  KeepsPriorities-after, KeepsPriorities-if, KeepsPriorities, SamePriorities,
}
use xeros_kernel.Process.{
  set_next, null, sleep, set_prev, store, detach, set_tick, Kernel, Ptr, Pcbs,
}
use xeros_kernel.Sleep.{
  ticks_of, remove_from_sleep_queue, leave_delta, add_ticks, tick, wake_loop, wake_first,
  go_to_sleep, sleep_loop, sleep_before,
}
use xeros_kernel.Base.{
  ltb, refl, zero, false, true, add32, ◌∙◌, ◌==◌, sub32, if◌then◌else◌, arith, none, suc, some,
  Bool, Option, ℕ,
}

sleep_before-same : (pcb p : Ptr) (k : Kernel) → SamePriorities k.pcbs (sleep_before pcb p k).pcbs
unfolding sleep_before
sleep_before-same pcb p k q = ground arith

sleep_loop-keeps :
    (f : ℕ) (pcb p : Ptr) (k : Kernel) → KeepsPriorities k.pcbs (sleep_loop f pcb p k)
unfolding sleep_loop
sleep_loop-keeps zero pcb p k = tt
sleep_loop-keeps (suc f) pcb p k =
    let t = set_tick k.pcbs pcb (sub32 (k.pcbs pcb).tick (k.pcbs p).tick) in
    let more = sleep_loop f pcb (t p).next (record k { pcbs = t }) in
    let last = record k { pcbs = set_prev (set_next t p pcb) pcb p } in
    let third = if (t p).next == null then some last else more in
    let before = sleep_before pcb p k in
    let second = if ltb (k.pcbs pcb).tick (k.pcbs p).tick then some before else third in
    KeepsPriorities-if k.pcbs (p == null) (some k) second (λ q. refl)
      (KeepsPriorities-if k.pcbs (ltb (k.pcbs pcb).tick (k.pcbs p).tick) (some before) third
        (sleep_before-same pcb p k)
        (KeepsPriorities-if k.pcbs ((t p).next == null) (some last) more (λ q. ground arith)
          (KeepsPriorities-after k.pcbs t more (λ q. ground arith)
            (sleep_loop-keeps f pcb (t p).next (record k { pcbs = t })))))

pub go_to_sleep-keeps :
    (f : ℕ) (pcb : Ptr) (ms : ℕ) (k : Kernel) → KeepsPriorities k.pcbs (go_to_sleep f pcb ms k)
unfolding go_to_sleep
go_to_sleep-keeps f pcb ms k =
    let t = detach (set_tick k.pcbs pcb (ticks_of ms)) pcb sleep in
    let k' = record k { pcbs = t } in
    KeepsPriorities-if k.pcbs (k.dl == null) (some (record k' { dl = pcb }))
      (sleep_loop f pcb k.dl k') (λ q. ground arith)
      (KeepsPriorities-after k.pcbs t (sleep_loop f pcb k.dl k') (λ q. ground arith)
        (sleep_loop-keeps f pcb k.dl k'))

wake_first-same : (p : Ptr) (k : Kernel) → SamePriorities k.pcbs (wake_first p k).pcbs
unfolding wake_first
wake_first-same p k q =
    let t = store k.pcbs p (record (k.pcbs p) { rc = (k.pcbs p).tick }) in
    ground (
      arith,
      make_ready-same p (record k { pcbs = t }) q,
      make_ready-same p (record k { pcbs = t }) (k.pcbs p).next,
    )

wake_loop-keeps : (f : ℕ) (k : Kernel) → KeepsPriorities k.pcbs (wake_loop f k)
unfolding wake_loop
wake_loop-keeps zero k = tt
wake_loop-keeps (suc f) k =
    let more = wake_loop f (wake_first k.dl k) in
    KeepsPriorities-if k.pcbs (k.dl == null) (some k)
      (if (k.pcbs k.dl).tick == 0 then more else some k) (λ q. refl)
      (KeepsPriorities-if k.pcbs ((k.pcbs k.dl).tick == 0) more (some k)
        (KeepsPriorities-after k.pcbs (wake_first k.dl k).pcbs more (wake_first-same k.dl k)
          (wake_loop-keeps f (wake_first k.dl k)))
        (λ q. refl))

pub tick-keeps : (f : ℕ) (k : Kernel) → KeepsPriorities k.pcbs (tick f k)
unfolding tick
tick-keeps f k =
    let t = set_tick k.pcbs k.dl (sub32 (k.pcbs k.dl).tick 1) in
    KeepsPriorities-if k.pcbs (k.dl == null) (some k) (wake_loop f (record k { pcbs = t }))
      (λ q. refl)
      (KeepsPriorities-after k.pcbs t (wake_loop f (record k { pcbs = t })) (λ q. ground arith)
        (wake_loop-keeps f (record k { pcbs = t })))

-- `add_ticks` returns the table alone.
abbrev KeepsTable : Pcbs → Option Pcbs → Type 0
KeepsTable t none = Unit {0}
KeepsTable t (some u) = SamePriorities t u

KeepsTable-if :
    (t u : Pcbs) (b : Bool) (o : Option Pcbs)
    → SamePriorities t u
    → KeepsTable u o
    → KeepsTable t (if b then some t else o)
KeepsTable-if t u true o s k = λ p. refl
KeepsTable-if t u false none s k = tt
KeepsTable-if t u false (some v) s k = λ p. k p ∙ s p

add_ticks-keeps : (f : ℕ) (pcb p : Ptr) (t : Pcbs) → KeepsTable t (add_ticks f pcb p t)
unfolding add_ticks
add_ticks-keeps zero pcb p t = tt
add_ticks-keeps (suc f) pcb p t =
    let u = set_tick t pcb (add32 (t pcb).tick (t p).tick) in
    KeepsTable-if t u (p == null) (add_ticks f pcb (t p).prev u) (λ q. ground arith)
      (add_ticks-keeps f pcb (t p).prev u)

leave_delta-same :
    (pcb : Ptr) (ticks : ℕ) (t : Pcbs) (k : Kernel)
    → SamePriorities t (leave_delta pcb ticks t k).pcbs
unfolding leave_delta
leave_delta-same pcb ticks t k p = ground arith

pub remove_from_sleep_queue-keeps :
    (f : ℕ) (pcb : Ptr) (k : Kernel) → KeepsPriorities k.pcbs (remove_from_sleep_queue f pcb k)
unfolding remove_from_sleep_queue
remove_from_sleep_queue-keeps f pcb k =
    left (add_ticks f pcb (k.pcbs pcb).prev k.pcbs) (add_ticks-keeps f pcb (k.pcbs pcb).prev k.pcbs)
  where
    left :
        (o : Option Pcbs)
        → KeepsTable k.pcbs o
        → KeepsPriorities k.pcbs
            (elim o [ none ↦ none | some t ↦ some (leave_delta pcb (k.pcbs pcb).tick t k) ])
    left none s = tt
    left (some t) s = λ q. leave_delta-same pcb (k.pcbs pcb).tick t k q ∙ s q
