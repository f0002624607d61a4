-- ===== src/Wait/Overwrite.antt =====
-- `addToWaitQueue` for a third process.
use xeros_kernel.Process.Chain.{Chain}
use xeros_kernel.Process.{waiting, detach, set_next, store, set_prev, Pcbs, null, Ptr, Kernel}
use xeros_kernel.Wait.{join_waiters}
use xeros_kernel.Base.{
  ==_comm, refl, [], ==_self, ==_ne, ◌∷◌, ◌∙◌, subst, sym, false, arith, ◌==◌, ◌≡◌, ◌≢◌,
}

-- What `join_waiters` leaves of a list that is not empty and ends at `last`.
record Joined (k : Kernel) (pcb target last : Ptr) (k' : Kernel) : Type 0 where
  head : (k'.pcbs target).wait_head ≡ (k.pcbs target).wait_head
  tail : (k'.pcbs target).wait_tail ≡ last
  link : (k'.pcbs last).next ≡ pcb
  ends : (k'.pcbs pcb).next ≡ null
  others : (a : Ptr) → (a == pcb) ≡ false → (a == last) ≡ false → (k'.pcbs a).next ≡ (k.pcbs a).next

-- The table once the fields of the process that waits are set.
abbrev waits : Kernel → Ptr → Ptr → Pcbs
waits k pcb target =
    store (detach k.pcbs pcb waiting) pcb
      (record (detach k.pcbs pcb waiting pcb) { waiting_on = target })

waits-keeps :
    (k : Kernel) (pcb target a : Ptr)
    → ((waits k pcb target a).wait_head ≡ (k.pcbs a).wait_head)
      × ((waits k pcb target a).wait_tail ≡ (k.pcbs a).wait_tail)
waits-keeps k pcb target a = ground arith

join_waiters-eq :
    (k : Kernel) (pcb target last : Ptr)
    → (k.pcbs target).wait_head ≢ null
    → (k.pcbs target).wait_tail ≡ last
    → join_waiters pcb target k
      ≡ record k { pcbs = set_prev (set_next (waits k pcb target) last pcb) pcb last }
unfolding join_waiters
join_waiters-eq k pcb target last nz e = rw (==_ne _ null head, tail) refl
  where
    head : (waits k pcb target target).wait_head ≢ null
    head z = nz (sym (waits-keeps k pcb target target).0 ∙ z)

    tail : (waits k pcb target target).wait_tail ≡ last
    tail = (waits-keeps k pcb target target).1 ∙ e

linked-keeps :
    (t : Pcbs) (pcb last a : Ptr)
    → let u = set_prev (set_next t last pcb) pcb last in
      ((u a).wait_head ≡ (t a).wait_head) × ((u a).wait_tail ≡ (t a).wait_tail)
linked-keeps t pcb last a = ground arith

join_waiters-Joined :
    (k : Kernel) (pcb target last : Ptr)
    → (k.pcbs target).wait_head ≢ null
    → (k.pcbs target).wait_tail ≡ last
    → (last == pcb) ≡ false
    → Joined k pcb target last (join_waiters pcb target k)
join_waiters-Joined k pcb target last nz e ne =
    subst (Joined k pcb target last) (sym (join_waiters-eq k pcb target last nz e)) (record {
      head =
          (linked-keeps (waits k pcb target) pcb last target).0
          ∙ (waits-keeps k pcb target target).0;
      tail =
          (linked-keeps (waits k pcb target) pcb last target).1
          ∙ (waits-keeps k pcb target target).1
          ∙ e;
      link = rw (ne, ==_self last) refl;
      ends = rw (==_comm pcb last, ne, ==_self pcb) refl;
      others = λ a na nl. rw (na, nl);
    })

-- If a process has a waiting list, whose tail is `last`, and two others x and y join it, then the
-- list from `last` on is `last` and y, without x, and the tail is still `last`.
pub second_waiter_lost :
    (k : Kernel) (target last x y : Ptr)
    → (k.pcbs target).wait_head ≢ null
    → (k.pcbs target).wait_tail ≡ last
    → (last == x) ≡ false
    → (last == y) ≡ false
    → last ≢ null
    → y ≢ null
    → let k' = join_waiters y target (join_waiters x target k) in
      Chain k'.pcbs last (last ∷ y ∷ []) × ((k'.pcbs target).wait_tail ≡ last)
second_waiter_lost k target last x y nz e nx ny nl yz =
    let one = join_waiters-Joined k x target last nz e nx in
    let two =
      join_waiters-Joined (join_waiters x target k) y target last (λ z. nz (sym one.head ∙ z))
        one.tail ny in
    ((refl, nl, (two.link, yz, two.ends)), two.tail)
