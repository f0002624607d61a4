-- ===== src/Sleep/Insert.antt =====
-- Where `sleep` puts a process.
use xeros_kernel.Sleep.Delta.{Sleepers-frame, names, IsDelta, IsAsleep}
use xeros_kernel.Sleep.{sleep_before, sleep_loop}
use xeros_kernel.Process.{set_tick, set_next, set_prev, Kernel, null, Ptr, Pcbs}
use xeros_kernel.Base.{
  mem_ne, ◌∈◌, refl, ==_comm, ==_self, sub32, false, arith, ◌==◌, ◌-◌, some, suc, ◌^◌, ◌∉◌, ◌<◌,
  ◌∷◌, ◌≡◌, List, ◌≢◌, ℕ,
}

-- The process that goes to sleep: it has its ticks, and no links.
pub record IsEntering (t : Pcbs) (pcb : Ptr) (n : ℕ) : Type 0 where
  pub not_null : pcb ≢ null
  pub asleep : IsAsleep (t pcb)
  pub ticks : (t pcb).tick ≡ n
  pub next : (t pcb).next ≡ null
  pub prev : (t pcb).prev ≡ null
  pub range : n < 2 ^ 32

-- The table after the branch of `sleep_before` for the front.
abbrev before_first : Pcbs → Ptr → Ptr → Pcbs
before_first t pcb x =
    set_prev (set_next (set_tick t x (sub32 (t x).tick (t pcb).tick)) pcb x) x pcb

before_first_fields :
    (t : Pcbs) (pcb x : Ptr)
    → (x == pcb) ≡ false
    → (before_first t pcb x pcb ≡ record (t pcb) { next = x })
      × (before_first t pcb x x ≡ record (t x) { tick = sub32 (t x).tick (t pcb).tick; prev = pcb })
before_first_fields t pcb x ne = rw (==_comm pcb x, ne, ==_self x, ==_self pcb) (refl, refl)

before_first_other :
    (t : Pcbs) (pcb x a : Ptr)
    → (a == pcb) ≡ false
    → (a == x) ≡ false
    → before_first t pcb x a ≡ t a
before_first_other t pcb x a ne ne' = rw (ne', ne)

sleep_before-front :
    (pcb x : Ptr) (k : Kernel)
    → (x == pcb) ≡ false
    → (k.pcbs x).prev ≡ null
    → sleep_before pcb x k ≡ record k { pcbs = before_first k.pcbs pcb x; dl = pcb }
unfolding sleep_before
sleep_before-front pcb x k ne e = rw (ne, ==_self x, e)

-- A process that sleeps shorter than the first one goes to the front.
pub sleep_loop-front :
    (f : ℕ) (pcb : Ptr) (n x d : ℕ) (xs : List (Ptr × ℕ)) (k : Kernel)
    → IsEntering k.pcbs pcb n
    → IsDelta k ((x, d) ∷ xs)
    → pcb ∉ names ((x, d) ∷ xs)
    → n < d
    → d < 2 ^ 32
    → (k' : Kernel) × (sleep_loop (suc f) pcb k.dl k ≡ some k')
      × IsDelta k' ((pcb, n) ∷ (x, d - n) ∷ xs)
unfolding sleep_loop
sleep_loop-front f pcb n x d xs k en w out lt range = (
  sleep_before pcb x k,
  ground (arith, w.list, en.ticks),
  rw (sleep_before-front pcb x k ne w.list.2) (record {
    list = (
      refl,
      en.not_null,
      rw fields.0 en.prev,
      rw fields.0 en.ticks,
      rw fields.0
          (record { state = en.asleep.state; priority = en.asleep.priority; pid = en.asleep.pid }),
      (
        rw fields.0 refl,
        w.list.1,
        rw fields.1 refl,
        rw fields.1 (omega (arith, w.list.3, en.ticks)),
        rw fields.1
            (record { state = w.list.4.state; priority = w.list.4.priority; pid = w.list.4.pid }),
        rw fields.1 (
            Sleepers-frame k.pcbs (before_first k.pcbs pcb x) x (k.pcbs x).next xs
              (λ a m. before_first_other k.pcbs pcb x a (apart a m) (mem_ne' a m)) w.list.5),
      ),
    );
    distinct = (out, w.distinct);
  }),
)
  where
    ne : (x == pcb) ≡ false
    ne = ground (arith, ==_comm x pcb)

    fields :
        (before_first k.pcbs pcb x pcb ≡ record (k.pcbs pcb) { next = x })
        × (before_first k.pcbs pcb x x
            ≡ record (k.pcbs x) { tick = sub32 (k.pcbs x).tick (k.pcbs pcb).tick; prev = pcb })
    fields = before_first_fields k.pcbs pcb x ne

    apart : (a : Ptr) → a ∈ names xs → (a == pcb) ≡ false
    apart a m = rw (==_comm a pcb) (mem_ne a pcb (names xs) m (ground arith))

    mem_ne' : (a : Ptr) → a ∈ names xs → (a == x) ≡ false
    mem_ne' a m = rw (==_comm a x) (mem_ne a x (names xs) m w.distinct.0)
