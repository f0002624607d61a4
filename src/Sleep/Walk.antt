-- ===== src/Sleep/Walk.antt =====
-- The loop of `sleep` past processes that wake earlier.
use xeros_kernel.Sleep.Insert.{IsEntering}
use xeros_kernel.Sleep.{sleep_before, sleep_loop}
use xeros_kernel.Process.{set_next, set_prev, null, set_tick, Kernel, Ptr, Pcbs}
use xeros_kernel.Base.{
  refl, lt→ltb, le→ltb, arith, some, ==_ne, subst, suc, ◌-◌, ==_self, false, ◌≤◌, sub32, ◌^◌, ◌≢◌,
  ◌==◌, ◌≡◌, ◌<◌, ℕ,
}

IsEntering-set_tick :
    (t : Pcbs) (pcb : Ptr) (n m : ℕ)
    → IsEntering t pcb n
    → m < 2 ^ 32
    → IsEntering (set_tick t pcb m) pcb m
IsEntering-set_tick t pcb n m en h = record {
  not_null = en.not_null;
  asleep =
      rw new
        (record { state = en.asleep.state; priority = en.asleep.priority; pid = en.asleep.pid });
  ticks = rw new refl;
  next = rw new en.next;
  prev = rw new en.prev;
  range = h;
}
  where
    new : set_tick t pcb m pcb ≡ record (t pcb) { tick = m }
    new = rw (==_self pcb)

-- The kernel with the ticks of x taken off those of `pcb`.
abbrev pub less : Ptr → Ptr → Kernel → Kernel
less pcb x k = record k { pcbs = set_tick k.pcbs pcb (sub32 (k.pcbs pcb).tick (k.pcbs x).tick) }

pub less-IsEntering :
    (pcb x : Ptr) (k : Kernel) (n d : ℕ)
    → IsEntering k.pcbs pcb n
    → (k.pcbs x).tick ≡ d
    → d ≤ n
    → IsEntering (less pcb x k).pcbs pcb (n - d)
less-IsEntering pcb x k n d en e h =
    subst (λ m. IsEntering (set_tick k.pcbs pcb m) pcb (n - d)) (omega (arith, en.ticks, en.range))
      (IsEntering-set_tick k.pcbs pcb n (n - d) en (omega (arith, en.range)))

pub less-other :
    (pcb x a : Ptr) (k : Kernel) → (a == pcb) ≡ false → (less pcb x k).pcbs a ≡ k.pcbs a
less-other pcb x a k ne = rw ne

-- One turn of the loop.
pub sleep_loop-next :
    (f : ℕ) (pcb x y : Ptr) (k : Kernel)
    → (x == pcb) ≡ false
    → x ≢ null
    → (k.pcbs x).tick ≤ (k.pcbs pcb).tick
    → (k.pcbs x).next ≡ y
    → y ≢ null
    → sleep_loop (suc f) pcb x k ≡ sleep_loop f pcb y (less pcb x k)
unfolding sleep_loop
sleep_loop-next f pcb x y k ne nz h e ny =
    rw (==_ne x null nz, le→ltb (k.pcbs pcb).tick (k.pcbs x).tick h, ne, e, ==_ne y null ny)

-- The turn at a last process.
pub sleep_loop-end :
    (f : ℕ) (pcb x : Ptr) (k : Kernel)
    → (x == pcb) ≡ false
    → x ≢ null
    → (k.pcbs x).tick ≤ (k.pcbs pcb).tick
    → (k.pcbs x).next ≡ null
    → sleep_loop (suc f) pcb x k
      ≡ some (record k { pcbs = set_prev (set_next (less pcb x k).pcbs x pcb) pcb x })
unfolding sleep_loop
sleep_loop-end f pcb x k ne nz h e =
    rw (==_ne x null nz, le→ltb (k.pcbs pcb).tick (k.pcbs x).tick h, ne, e)

-- The turn at a process that wakes later, which has one before it.
pub sleep_loop-before :
    (f : ℕ) (pcb x : Ptr) (k : Kernel)
    → x ≢ null
    → (k.pcbs pcb).tick < (k.pcbs x).tick
    → sleep_loop (suc f) pcb x k ≡ some (sleep_before pcb x k)
unfolding sleep_loop
sleep_loop-before f pcb x k nz h = rw (==_ne x null nz, lt→ltb (k.pcbs pcb).tick (k.pcbs x).tick h)
