-- ===== src/Sleep/Enter.antt =====
-- `sleep` as a whole.
use xeros_kernel.Sleep.Lost.{loses_past}
use xeros_kernel.Process.Chain.{Chain-frame, Chain}
use xeros_kernel.Sleep.Order.{appends, mem-apart}
use xeros_kernel.Sleep.Insert.{sleep_loop-front, IsEntering}
use xeros_kernel.Sleep.Delta.{Sleepers-Chain, names-append, Sleepers-frame, total, names, IsDelta}
use xeros_kernel.Sleep.{sleep_loop, ticks_of, go_to_sleep}
use xeros_kernel.Process.{pq_size, sleep, null, set_tick, detach, Kernel, Ptr}
use xeros_kernel.Base.{
  AllDistinct-append_one, suc, ◌+◌, ◌∙◌, arith, ◌++◌, sym, ==_self, refl, ◌≤◌, ◌-◌, ==_ne, ◌^◌,
  some, length, ◌≡◌, ◌∉◌, ◌<◌, ◌∷◌, [], List, ◌≢◌, ℕ,
}

-- The kernel once the fields of `pcb` are set.
abbrev entered : Ptr → ℕ → Kernel → Kernel
entered pcb ms k = record k { pcbs = detach (set_tick k.pcbs pcb (ticks_of ms)) pcb sleep }

entered-IsEntering :
    (pcb : Ptr) (ms : ℕ) (k : Kernel)
    → pcb ≢ null
    → (k.pcbs pcb).priority < pq_size
    → (k.pcbs pcb).pid ≢ 0
    → ms < 2 ^ 32
    → IsEntering (entered pcb ms k).pcbs pcb (ticks_of ms)
entered-IsEntering pcb ms k nz small pid range = record {
  not_null = nz;
  asleep = rw (==_self pcb) (record { state = refl; priority = small; pid = pid });
  ticks = rw (==_self pcb) refl;
  next = rw (==_self pcb) refl;
  prev = rw (==_self pcb) refl;
  range = ground arith;
}

entered-IsDelta :
    (pcb : Ptr) (ms : ℕ) (k : Kernel) (xs : List (Ptr × ℕ))
    → IsDelta k xs
    → pcb ∉ names xs
    → IsDelta (entered pcb ms k) xs
entered-IsDelta pcb ms k xs w out = record {
  list =
      Sleepers-frame k.pcbs (entered pcb ms k).pcbs null k.dl xs
        (λ a m. rw (mem-apart pcb a (names xs) out m) refl) w.list;
  distinct = w.distinct;
}

-- What `sleep` asks of its caller: a process of the table, of a priority of the queues, not asleep.
pub record MaySleep (k : Kernel) (pcb ms : ℕ) (xs : List (Ptr × ℕ)) : Type 0 where
  pub not_null : pcb ≢ null
  pub priority : (k.pcbs pcb).priority < pq_size
  pub pid : (k.pcbs pcb).pid ≢ 0
  pub range : ms < 2 ^ 32
  pub out : pcb ∉ names xs
  pub list : IsDelta k xs

module _ (f : ℕ) (pcb ms : ℕ) (k : Kernel) where
  go_to_sleep-loop :
      (x d : ℕ) (xs : List (Ptr × ℕ))
      → IsDelta k ((x, d) ∷ xs)
      → go_to_sleep f pcb ms k ≡ sleep_loop f pcb k.dl (entered pcb ms k)
  unfolding go_to_sleep
  go_to_sleep-loop x d xs w = rw (==_ne k.dl null (λ z. w.list.1 (sym w.list.0 ∙ z)))

  -- With an empty delta list, `sleep` ends with the process as the list, with the ticks of its
  -- time.
  go_to_sleep-alone :
      MaySleep k pcb ms []
      → (k' : Kernel) × (go_to_sleep f pcb ms k ≡ some k') × IsDelta k' ((pcb, ticks_of ms) ∷ [])
  unfolding go_to_sleep
  go_to_sleep-alone m = (
    record (entered pcb ms k) { dl = pcb },
    rw m.list.list refl,
    record {
      list = (refl, m.not_null, en.prev, en.ticks, en.asleep, en.next);
      distinct = (refl, tt);
    },
  )
    where
      en : IsEntering (entered pcb ms k).pcbs pcb (ticks_of ms)
      en = entered-IsEntering pcb ms k m.not_null m.priority m.pid m.range

  -- If the delta list is not empty, does not hold the process, and its last process wakes no later
  -- than it, then with fuel above the list's length `sleep` ends with the process at the list's
  -- end, with the ticks that the others leave of its own.
  pub go_to_sleep-last :
      (x d : ℕ) (xs : List (Ptr × ℕ))
      → MaySleep k pcb ms ((x, d) ∷ xs)
      → length xs < f
      → total ((x, d) ∷ xs) ≤ ticks_of ms
      → (k' : Kernel) × (go_to_sleep f pcb ms k ≡ some k')
        × IsDelta k' ((x, d) ∷ xs ++ (pcb, ticks_of ms - total ((x, d) ∷ xs)) ∷ [])
  go_to_sleep-last x d xs m fuel h =
      let (k', run, app) =
        appends f pcb (ticks_of ms) null k.dl x d xs (entered pcb ms k) fuel
          (entered-IsEntering pcb ms k m.not_null m.priority m.pid m.range)
          (entered-IsDelta pcb ms k ((x, d) ∷ xs) m.list m.out).list m.list.distinct m.out h in
      (
        k',
        go_to_sleep-loop x d xs m.list ∙ run,
        record {
          list = rw app.same_dl app.list;
          distinct =
              rw (names-append xs ((pcb, ticks_of ms - total ((x, d) ∷ xs)) ∷ []))
                (AllDistinct-append_one (names ((x, d) ∷ xs)) pcb m.list.distinct m.out);
        },
      )

-- If the process, not in the delta list, wakes before its front, `sleep` ends with the process at
-- the front and the old front counting from it.
go_to_sleep-front :
    (f : ℕ) (pcb ms : ℕ) (k : Kernel) (x d : ℕ) (xs : List (Ptr × ℕ))
    → MaySleep k pcb ms ((x, d) ∷ xs)
    → ticks_of ms < d
    → d < 2 ^ 32
    → (k' : Kernel) × (go_to_sleep (suc f) pcb ms k ≡ some k')
      × IsDelta k' ((pcb, ticks_of ms) ∷ (x, d - ticks_of ms) ∷ xs)
go_to_sleep-front f pcb ms k x d xs m lt range =
    let (k', run, w) =
      sleep_loop-front f pcb (ticks_of ms) x d xs (entered pcb ms k)
        (entered-IsEntering pcb ms k m.not_null m.priority m.pid m.range)
        (entered-IsDelta pcb ms k ((x, d) ∷ xs) m.list m.out) m.out lt range in
    (k', go_to_sleep-loop (suc f) pcb ms k x d xs m.list ∙ run, w)

-- If the process, not in the delta list, wakes before y and no earlier than the processes in front
-- of y, of which there is at least one, then with fuel above their number `sleep` ends: the
-- process is asleep, and the list that starts at the kernel's `dl` is the old one, without it.
pub go_to_sleep-lost :
    (f pcb ms : ℕ) (k : Kernel) (x d : ℕ) (xs : List (Ptr × ℕ)) (y e : ℕ) (ys : List (Ptr × ℕ))
    → MaySleep k pcb ms ((x, d) ∷ xs ++ (y, e) ∷ ys)
    → length xs < f
    → total ((x, d) ∷ xs) ≤ ticks_of ms
    → ticks_of ms < total ((x, d) ∷ xs) + e
    → (k' : Kernel) × (go_to_sleep (suc f) pcb ms k ≡ some k')
      × ((k'.pcbs pcb).state ≡ sleep)
      × Chain k'.pcbs k'.dl (names ((x, d) ∷ xs ++ (y, e) ∷ ys))
go_to_sleep-lost f pcb ms k x d xs y e ys m fuel lo hi =
    let all = (x, d) ∷ xs ++ (y, e) ∷ ys in
    let j = entered pcb ms k in
    let s = (entered-IsDelta pcb ms k all m.list m.out).list in
    let (k', run, un) =
      loses_past f pcb (ticks_of ms) null k.dl x d xs y e ys j fuel
        (entered-IsEntering pcb ms k m.not_null m.priority m.pid m.range) s m.out lo hi in
    (
      k',
      go_to_sleep-loop (suc f) pcb ms k x d (xs ++ (y, e) ∷ ys) m.list ∙ run,
      un.state ∙ rw (==_self pcb) refl,
      rw un.same_dl (
          Chain-frame j.pcbs k'.pcbs k.dl (names all)
            (λ a i. un.same_next a (mem-apart pcb a (names all) m.out i))
            (Sleepers-Chain j.pcbs null k.dl all s)),
    )
