-- ===== src/Sleep/Wake.antt =====
-- `tick` as a whole.
use xeros_kernel.ReadyQueue.Link.{Same}
use xeros_kernel.Sleep.Order.{mem-apart}
use xeros_kernel.Sleep.Tick.{wake_first_lem, woken}
use xeros_kernel.ReadyQueue.Spec.{IsReady}
use xeros_kernel.ReadyQueue.Lists.{AreQueues-frame, replace, Queues}
use xeros_kernel.Sleep.Delta.{names, Sleepers-frame, IsDelta}
use xeros_kernel.Sleep.{wake_first, tick, wake_loop}
use xeros_kernel.Process.{null, set_tick, Ptr, Kernel}
use xeros_kernel.Base.{
  ==_self, zero, subst, refl, ◌∙◌, arith, ap, sym, ◌^◌, ==_ne, ◌++◌, some, ◌<◌, sub32, length, suc,
  ◌≡◌, ◌≢◌, ◌+◌, ◌∷◌, ◌∷◌, [], List, ℕ,
}

-- Processes that wake at the same tick as the one before them.
abbrev pub zeros : List Ptr → List (Ptr × ℕ)
zeros [] = []
zeros (x ∷ xs) = (x, 0) ∷ zeros xs

abbrev pub IsLater : List (Ptr × ℕ) → Type 0
IsLater [] = Unit {0}
IsLater ((y, e) ∷ ys) = e ≢ 0

dl-null : (k : Kernel) → IsDelta k [] → k.dl ≡ null
dl-null k w = w.list

wake_loop-stops :
    (f : ℕ) (k : Kernel) (rest : List (Ptr × ℕ))
    → IsDelta k rest
    → IsLater rest
    → wake_loop (suc f) k ≡ some k
unfolding wake_loop
wake_loop-stops f k [] w later = rw w.list refl
wake_loop-stops f k ((y, e) ∷ ys) w later =
    rw (==_ne k.dl null (λ z. w.list.1 (sym w.list.0 ∙ z)), ==_ne (k.pcbs k.dl).tick 0 late) refl
  where
    late : (k.pcbs k.dl).tick ≢ 0
    late z = later (sym w.list.3 ∙ ap (λ p. (k.pcbs p).tick) (sym w.list.0) ∙ z)

wake_loop-next :
    (f : ℕ) (k : Kernel) (x : Ptr) (xs : List (Ptr × ℕ))
    → IsDelta k ((x, 0) ∷ xs)
    → wake_loop (suc f) k ≡ wake_loop f (wake_first x k)
unfolding wake_loop
wake_loop-next f k x xs w =
    rw (==_ne k.dl null (λ z. w.list.1 (sym w.list.0 ∙ z)), now)
      (ap (λ p. wake_loop f (wake_first p k)) w.list.0)
  where
    now : (k.pcbs k.dl).tick ≡ 0
    now = ap (λ p. (k.pcbs p).tick) w.list.0 ∙ w.list.3

-- The processes zs are made ready in their order, and the rest of the list stays.
record AllWoken (priority : Ptr → ℕ) (qs : Queues) (zs : List Ptr) (rest : List (Ptr × ℕ))
    (k' : Kernel) : Type 0 where
  pub list : IsDelta k' rest
  pub ready : IsReady k' (woken priority qs zs)

wake_loop_lem :
    (f : ℕ) (k : Kernel) (zs : List Ptr) (rest : List (Ptr × ℕ)) (qs : Queues) (priority : Ptr → ℕ)
    → length zs < f
    → IsDelta k (zeros zs ++ rest)
    → IsLater rest
    → IsReady k qs
    → ((a : Ptr) → (k.pcbs a).priority ≡ priority a)
    → (k' : Kernel) × (wake_loop f k ≡ some k') × AllWoken priority qs zs rest k'
wake_loop_lem zero k zs rest qs pr fuel w later r same = absurd (omega arith)
wake_loop_lem (suc f) k [] rest qs pr fuel w later r same =
    (k, wake_loop-stops f k rest w later, record { list = w; ready = r })
wake_loop_lem (suc f) k (x ∷ zs) rest qs pr fuel w later r same =
    let one = wake_first_lem k x 0 (zeros zs ++ rest) qs w r in
    let (k', run, all) =
      wake_loop_lem f (wake_first x k) zs rest (replace qs (pr x) (qs (pr x) ++ x ∷ [])) pr
        (omega arith) one.list later
        (subst (λ i. IsReady (wake_first x k) (replace qs i (qs i ++ x ∷ []))) (same x) one.ready)
        (λ a. one.priority a ∙ same a) in
    (
      k',
      wake_loop-next f k x (zeros zs ++ rest) w ∙ run,
      record { list = all.list; ready = all.ready },
    )

-- The kernel once the front has one tick less.
abbrev ticked : Kernel → Kernel
ticked k = record k { pcbs = set_tick k.pcbs k.dl (sub32 (k.pcbs k.dl).tick 1) }

tick-eq :
    (f : ℕ) (k : Kernel) (x d : ℕ) (xs : List (Ptr × ℕ))
    → IsDelta k ((x, d) ∷ xs)
    → tick f k ≡ wake_loop f (ticked k)
unfolding tick
tick-eq f k x d xs w = rw (==_ne k.dl null (λ z. w.list.1 (sym w.list.0 ∙ z)))

ticked-IsDelta :
    (k : Kernel) (x d : ℕ) (xs : List (Ptr × ℕ))
    → d + 1 < 2 ^ 32
    → IsDelta k ((x, suc d) ∷ xs)
    → IsDelta (ticked k) ((x, d) ∷ xs)
ticked-IsDelta k x d xs range w = record {
  list = (
    w.list.0,
    w.list.1,
    rw new w.list.2,
    rw new less_one,
    rw new (record { state = w.list.4.state; priority = w.list.4.priority; pid = w.list.4.pid }),
    rw new (
        Sleepers-frame k.pcbs (ticked k).pcbs x (k.pcbs x).next xs
          (λ a m. rw (w.list.0, mem-apart x a (names xs) w.distinct.0 m) refl) w.list.5),
  );
  distinct = w.distinct;
}
  where
    new : (ticked k).pcbs x ≡ record (k.pcbs x) { tick = sub32 (k.pcbs x).tick 1 }
    new = rw (w.list.0, ==_self x) refl

    less_one : sub32 (k.pcbs x).tick 1 ≡ d
    less_one = omega (arith, w.list.3)

ticked-Same : (k : Kernel) (a : Ptr) → Same ((ticked k).pcbs a) (k.pcbs a)
ticked-Same k a = ground arith

ticked-IsReady : (k : Kernel) (qs : Queues) → IsReady k qs → IsReady (ticked k) qs
ticked-IsReady k qs r = AreQueues-frame (ticked k).pcbs r (ticked-Same k)

-- If the front process x has one tick left, those of zs wake with it and the next one later, then
-- with fuel above their number `tick` ends: x and those of zs are in the ready queue, each at the
-- end of its priority's list in this order, and the others stay asleep with the ticks they had.
pub tick-wakes :
    (f : ℕ) (k : Kernel) (x : Ptr) (zs : List Ptr) (rest : List (Ptr × ℕ)) (qs : Queues)
    → length zs + 1 < f
    → IsDelta k ((x, 1) ∷ zeros zs ++ rest)
    → IsLater rest
    → IsReady k qs
    → (k' : Kernel) × (tick f k ≡ some k')
      × IsDelta k' rest
      × IsReady k' (woken (λ a. (k.pcbs a).priority) qs (x ∷ zs))
tick-wakes f k x zs rest qs fuel w later r =
    let (k', run, all) =
      wake_loop_lem f (ticked k) (x ∷ zs) rest qs (λ a. (k.pcbs a).priority) (omega arith)
        (ticked-IsDelta k x 0 (zeros zs ++ rest) (omega arith) w) later (ticked-IsReady k qs r)
        (λ a. (ticked-Same k a).1) in
    (k', tick-eq f k x 1 (zeros zs ++ rest) w ∙ run, all.list, all.ready)

-- If the front process has more than one tick left, `tick` takes one off, keeps everyone asleep
-- and leaves the lists of the ready queue.
tick-counts :
    (f : ℕ) (k : Kernel) (x d : ℕ) (rest : List (Ptr × ℕ)) (qs : Queues)
    → d + 2 < 2 ^ 32
    → IsDelta k ((x, suc (suc d)) ∷ rest)
    → IsReady k qs
    → (k' : Kernel) × (tick (suc f) k ≡ some k') × IsDelta k' ((x, suc d) ∷ rest) × IsReady k' qs
tick-counts f k x d rest qs range w r =
    let now = ticked-IsDelta k x (suc d) rest (omega arith) w in
    (
      ticked k,
      tick-eq (suc f) k x (suc (suc d)) rest w
          ∙ wake_loop-stops f (ticked k) ((x, suc d) ∷ rest) now (λ z. omega arith),
      now,
      ticked-IsReady k qs r,
    )
