-- ===== src/Sleep/Order.antt =====
-- `sleep` at the end of the list, and between two processes.
use xeros_kernel.Sleep.Walk.{less-other, sleep_loop-next, less-IsEntering, less, sleep_loop-end}
use xeros_kernel.Sleep.{sleep_loop}
use xeros_kernel.Sleep.Insert.{IsEntering}
use xeros_kernel.Sleep.Delta.{Sleepers-frame, names, total, Sleepers}
use xeros_kernel.Process.{set_tick, set_next, set_prev, Ptr, Kernel, Pcbs}
use xeros_kernel.Base.{
  sym, ◌+◌, mem_ne, ◌∈◌, zero, ◌∙◌, sub32, refl, suc, arith, some, ◌≤◌, ◌∉◌, [], AllDistinct, ◌∷◌,
  ◌-◌, ==_self, ◌++◌, ==_comm, ◌<◌, false, length, ◌≡◌, List, ◌==◌, ℕ,
}

-- The table after the turn at a last process x.
abbrev behind : Pcbs → Ptr → Ptr → ℕ → Pcbs
behind t pcb x m = set_prev (set_next (set_tick t pcb m) x pcb) pcb x

behind_fields :
    (t : Pcbs) (pcb x : Ptr) (m : ℕ)
    → (x == pcb) ≡ false
    → (behind t pcb x m pcb ≡ record (t pcb) { tick = m; prev = x })
      × (behind t pcb x m x ≡ record (t x) { next = pcb })
behind_fields t pcb x m ne = rw (==_comm pcb x, ne, ==_self x, ==_self pcb) (refl, refl)

behind_other :
    (t : Pcbs) (pcb x a : Ptr) (m : ℕ)
    → (a == pcb) ≡ false
    → (a == x) ≡ false
    → behind t pcb x m a ≡ t a
behind_other t pcb x a m ne ne' = rw (ne, ne')

-- What `sleep` makes of a list in which nobody wakes later.
pub record Appended (k : Kernel) (back p pcb : Ptr) (n : ℕ) (xs : List (Ptr × ℕ)) (k' : Kernel)
    : Type 0 where
  pub same_dl : k'.dl ≡ k.dl
  pub list : Sleepers k'.pcbs back p (xs ++ (pcb, n - total xs) ∷ [])
  pub others : (a : Ptr) → (a == pcb) ≡ false → a ∉ names xs → k'.pcbs a ≡ k.pcbs a

-- A process of the list is not the one that comes in.
pub mem-apart : (pcb a : Ptr) (xs : List Ptr) → pcb ∉ xs → a ∈ xs → (a == pcb) ≡ false
mem-apart pcb a xs out m = rw (==_comm a pcb) (mem_ne a pcb xs m out)

Appended-step :
    (k k' : Kernel) (back p pcb n x d : ℕ) (ys : List (Ptr × ℕ))
    → Sleepers k.pcbs back p ((x, d) ∷ ys)
    → (x == pcb) ≡ false
    → x ∉ names ys
    → Appended (less pcb x k) x (k.pcbs x).next pcb (n - d) ys k'
    → Appended k back p pcb n ((x, d) ∷ ys) k'
Appended-step k k' back p pcb n x d ys s ne out app = record {
  same_dl = app.same_dl;
  list = (s.0, s.1, rw here s.2, rw here s.3, rw here s.4, rw (here, ← left) app.list);
  others = λ a na m. app.others a na (ground arith) ∙ less-other pcb x a k na;
}
  where
    here : k'.pcbs x ≡ k.pcbs x
    here = app.others x ne out ∙ less-other pcb x x k ne

    left : n - d - total ys ≡ n - (d + total ys)
    left = omega arith

pub appends :
    (f : ℕ) (pcb : Ptr) (n : ℕ) (back p x d : ℕ) (xs : List (Ptr × ℕ)) (k : Kernel)
    → length xs < f
    → IsEntering k.pcbs pcb n
    → Sleepers k.pcbs back p ((x, d) ∷ xs)
    → AllDistinct (names ((x, d) ∷ xs))
    → pcb ∉ names ((x, d) ∷ xs)
    → total ((x, d) ∷ xs) ≤ n
    → (k' : Kernel) × (sleep_loop f pcb p k ≡ some k') × Appended k back p pcb n ((x, d) ∷ xs) k'
appends zero pcb n back p x d xs k fuel en s dis out h = absurd (omega arith)
appends (suc f) pcb n back p x d [] k fuel en s dis out h = (
  record k { pcbs = behind k.pcbs pcb x (sub32 (k.pcbs pcb).tick (k.pcbs x).tick) },
  rw s.0 (sleep_loop-end f pcb x k ne s.1 (omega (arith, s.3, en.ticks)) s.5),
  record {
    same_dl = refl;
    list = (
      s.0,
      s.1,
      rw fields.1 s.2,
      rw fields.1 s.3,
      rw fields.1 (record { state = s.4.state; priority = s.4.priority; pid = s.4.pid }),
      (
        rw fields.1 refl,
        en.not_null,
        rw fields.0 refl,
        rw fields.0 (omega (arith, en.ticks, en.range, s.3)),
        rw fields.0 (record {
          state = en.asleep.state;
          priority = en.asleep.priority;
          pid = en.asleep.pid;
        }),
        rw fields.0 en.next,
      ),
    );
    others = λ a na m. behind_other k.pcbs pcb x a _ na (ground arith);
  },
)
  where
    ne : (x == pcb) ≡ false
    ne = ground (arith, ==_comm x pcb)

    fields :
        (behind k.pcbs pcb x (sub32 (k.pcbs pcb).tick (k.pcbs x).tick) pcb
          ≡ record (k.pcbs pcb) { tick = sub32 (k.pcbs pcb).tick (k.pcbs x).tick; prev = x })
        × (behind k.pcbs pcb x (sub32 (k.pcbs pcb).tick (k.pcbs x).tick) x
            ≡ record (k.pcbs x) { next = pcb })
    fields = behind_fields k.pcbs pcb x _ ne
appends (suc f) pcb n back p x d ((y, e) ∷ xs) k fuel en s dis out h =
    let (k', run, app) =
      appends f pcb (n - d) x (k.pcbs x).next y e xs (less pcb x k) (omega arith)
        (less-IsEntering pcb x k n d en s.3 (omega arith)) rest dis.1 (ground arith)
        (omega arith) in
    (
      k',
      rw s.0 (
          sleep_loop-next f pcb x (k.pcbs x).next k ne s.1 (omega (arith, s.3, en.ticks)) refl
            (λ z. s.5.1 (sym s.5.0 ∙ z))
          ∙ run),
      Appended-step k k' back p pcb n x d ((y, e) ∷ xs) s ne dis.0 app,
    )
  where
    ne : (x == pcb) ≡ false
    ne = mem-apart pcb x (names ((x, d) ∷ (y, e) ∷ xs)) out (ground (arith, ==_self x))

    rest : Sleepers (less pcb x k).pcbs x (k.pcbs x).next ((y, e) ∷ xs)
    rest =
        Sleepers-frame k.pcbs (less pcb x k).pcbs x (k.pcbs x).next ((y, e) ∷ xs)
          (λ a m. less-other pcb x a k (mem-apart pcb a (names ((y, e) ∷ xs)) (ground arith) m)) s.5
