-- ===== src/Memory/Twice.antt =====
-- `kfree` of a block that is free already: `insertToMemList` has cleared its check.
use xeros_kernel.Process.{null}
use xeros_kernel.Memory.{
  is_outside, touches, mem_header_size, sanity_check, Layout, sanity_to, Headers, kfree,
  merge_mem_slot, merge_prev, merge_next, insert_to_mem_list, reallocate_mem_ptr, insert_loop,
  link_between, link_at_end, link_in_front, Heap,
}
use xeros_kernel.Base.{
  ◌≢◌, sym, ◌||◌, ap, ltb, ◌&&◌, refl, ◌^◌, ◌∙◌, ◌<◌, sub32, ◌==◌, zero, none, false, not, ==_self,
  suc, some, true, arith, if◌then◌else◌, ◌≡◌, Bool, Option, ℕ,
}

-- In the heap that this is, if it is one, the check at x is v.
abbrev HasCheck : ℕ → ℕ → Option Heap → Type 0
HasCheck x v o = (h' : Heap) → o ≡ some h' → (h'.headers x).sanity_check ≡ v

some-HasCheck : (x v : ℕ) (h : Heap) → (h.headers x).sanity_check ≡ v → HasCheck x v (some h)
some-HasCheck x v h e h' i = cc

if-HasCheck :
    (x v : ℕ) (b : Bool) (o p : Option Heap)
    → HasCheck x v o
    → HasCheck x v p
    → HasCheck x v (if b then o else p)
if-HasCheck x v true o p k l = k
if-HasCheck x v false o p k l = l

link_in_front-check :
    (slot p x : ℕ) (t : Headers) → (link_in_front slot p t x).sanity_check ≡ (t x).sanity_check
unfolding link_in_front
link_in_front-check slot p x t = ground arith

link_at_end-check :
    (p slot x : ℕ) (t : Headers) → (link_at_end p slot t x).sanity_check ≡ (t x).sanity_check
unfolding link_at_end
link_at_end-check p slot x t = ground arith

link_between-check :
    (p slot n x : ℕ) (t : Headers) → (link_between p slot n t x).sanity_check ≡ (t x).sanity_check
unfolding link_between
link_between-check p slot n x t = ground arith

insert_loop-HasCheck :
    (f slot x : ℕ) (h : Heap) → HasCheck x (h.headers x).sanity_check (insert_loop f slot h)
unfolding insert_loop
insert_loop-HasCheck zero slot x h = λ h' e. ground arith
insert_loop-HasCheck (suc f) slot x h =
    let t = h.headers in
    let p = h.mem_list in
    let n = (t p).next in
    let v = (t x).sanity_check in
    let front = record h { headers = link_in_front slot p t } in
    let end = record h { headers = link_at_end p slot t } in
    let middle = record h { headers = link_between p slot n t } in
    let rest = insert_loop f slot (record h { mem_list = n }) in
    let third = if ltb p slot && ltb slot n then some middle else rest in
    if-HasCheck x v ((t p).prev == null && ltb slot p) (some front)
      (if n == null then some end else third)
      (some-HasCheck x v front (link_in_front-check slot p x t))
      (if-HasCheck x v (n == null) (some end) third
        (some-HasCheck x v end (link_at_end-check p slot x t))
        (if-HasCheck x v (ltb p slot && ltb slot n) (some middle) rest
          (some-HasCheck x v middle (link_between-check p slot n x t))
          (insert_loop-HasCheck f slot x (record h { mem_list = n }))))

reallocate_mem_ptr-HasCheck :
    (f x : ℕ) (h : Heap) → HasCheck x (h.headers x).sanity_check (reallocate_mem_ptr f h)
unfolding reallocate_mem_ptr
reallocate_mem_ptr-HasCheck f x h = λ h' e. ground arith

insert_to_mem_list-HasCheck :
    (f slot : ℕ) (h : Heap) → HasCheck slot 0 (insert_to_mem_list f slot h)
unfolding insert_to_mem_list
insert_to_mem_list-HasCheck f slot h =
    if-HasCheck slot 0 (h.mem_list == null)
      (some (record { headers = sanity_to h.headers slot 0; mem_list = slot })) searched
      (some-HasCheck slot 0 (record { headers = sanity_to h.headers slot 0; mem_list = slot })
        cleared)
      (after (insert_loop f slot (record h { headers = sanity_to h.headers slot 0 })) (λ h' e.
        insert_loop-HasCheck f slot slot (record h { headers = sanity_to h.headers slot 0 }) h' e
        ∙ cleared))
  where
    cleared : ((sanity_to h.headers slot 0) slot).sanity_check ≡ 0
    cleared = rw (==_self slot) refl

    searched : Option Heap
    searched = elim (insert_loop f slot (record h { headers = sanity_to h.headers slot 0 })) [
      | none ↦ none
      | some g ↦ reallocate_mem_ptr f g
    ]

    after :
        (o : Option Heap)
        → HasCheck slot 0 o
        → HasCheck slot 0 (elim o [ none ↦ none | some g ↦ reallocate_mem_ptr f g ])
    after none k = λ h' e. ground arith
    after (some g) k = λ h' e. reallocate_mem_ptr-HasCheck f slot g h' e ∙ k g refl

merge_next-check :
    (slot x : ℕ) (t : Headers) → (merge_next slot t x).sanity_check ≡ (t x).sanity_check
unfolding merge_next
merge_next-check slot x t = ground arith

merge_prev-check :
    (slot x : ℕ) (t : Headers) → (merge_prev slot t x).sanity_check ≡ (t x).sanity_check
unfolding merge_prev
merge_prev-check slot x t = ground arith

if-check :
    (x v : ℕ) (b : Bool) (t u : Headers)
    → (t x).sanity_check ≡ v
    → (u x).sanity_check ≡ v
    → ((if b then t else u) x).sanity_check ≡ v
if-check x v true t u k l = k
if-check x v false t u k l = l

merge_mem_slot-check :
    (slot x : ℕ) (t : Headers) → (merge_mem_slot slot t x).sanity_check ≡ (t x).sanity_check
unfolding merge_mem_slot
merge_mem_slot-check slot x t =
    if-check x v (not ((u a).next == null) && touches u a (u a).next) (merge_next a u) u
      (merge_next-check a x u ∙ inner) inner
  where
    v : ℕ
    v = (t x).sanity_check

    left : Bool
    left = not ((t slot).prev == null) && touches t (t slot).prev slot

    a : ℕ
    a = if left then (t slot).prev else slot

    u : Headers
    u = if left then merge_prev slot t else t

    inner : (u x).sanity_check ≡ v
    inner = if-check x v left (merge_prev slot t) t (merge_prev-check slot x t) refl

freed_check :
    (slot : ℕ) (b : Bool) (h : Heap) (o : Option Heap) (h' : Heap)
    → HasCheck slot 0 o
    → if◌then◌else◌ {A = Option (Bool × Heap)} b (some (false, h)) (elim o [
      | none ↦ none
      | some g ↦ some (true, record g { headers = merge_mem_slot slot g.headers })
    ])
      ≡ some (true, h')
    → (h'.headers slot).sanity_check ≡ 0
freed_check slot true h o h' k e = ground arith
freed_check slot false h none h' k e = ground arith
freed_check slot false h (some g) h' k e =
    ap (λ r. elim r as (λ _. ℕ) [ none ↦ 0 | some (b, m) ↦ (m.headers slot).sanity_check ]) (sym e)
    ∙ merge_mem_slot-check slot slot g.headers
    ∙ k g refl

kfree-check :
    (f ptr : ℕ) (ly : Layout) (h h' : Heap)
    → kfree f ly ptr h ≡ some (true, h')
    → (h'.headers (sub32 ptr mem_header_size)).sanity_check ≡ 0
unfolding kfree
kfree-check f ptr ly h h' e =
    let slot = sub32 ptr mem_header_size in
    freed_check slot (is_outside ly ptr || not (sanity_check slot ptr h.headers)) h
      (insert_to_mem_list f slot h) h' (insert_to_mem_list-HasCheck f slot h) e

unchecked :
    (ptr : ℕ) (t : Headers)
    → sub32 ptr mem_header_size ≢ 0
    → (t (sub32 ptr mem_header_size)).sanity_check ≡ 0
    → sanity_check (sub32 ptr mem_header_size) ptr t ≡ false
unfolding sanity_check
unchecked ptr t nz i = ground arith

||_true : (b : Bool) → (b || true) ≡ true
||_true b = ground arith

-- If `kfree` of a pointer above 16 succeeds on a heap, then `kfree` of the same pointer on the
-- heap that it leaves fails and changes nothing.
pub kfree-twice :
    (f g ptr : ℕ) (ly : Layout) (h h' : Heap)
    → mem_header_size < ptr
    → ptr < 2 ^ 32
    → kfree f ly ptr h ≡ some (true, h')
    → kfree g ly ptr h' ≡ some (false, h')
unfolding kfree
kfree-twice f g ptr ly h h' low high e = rw (refused, ||_true (is_outside ly ptr)) refl
  where
    refused : sanity_check (sub32 ptr mem_header_size) ptr h'.headers ≡ false
    refused = unchecked ptr h'.headers (omega arith) (kfree-check f ptr ly h h' e)
