-- ===== src/Memory/Free.antt =====
-- `kfree`.
use xeros_kernel.Memory.Walk.{AllSmall}
use xeros_kernel.Memory.Merge.{merged-IsFree, IsGap-before, merge_mem_slot-next}
use xeros_kernel.Memory.Relink.{mem-right}
use xeros_kernel.Memory.Allocate.{kmalloc-cuts, IsHandedOut}
use xeros_kernel.Process.{null}
use xeros_kernel.Memory.Linked.{IsInserted, insert_behind, insert_front, Inserted}
use xeros_kernel.Memory.Apart.{
  Apart-bound, Apart-below, Apart, Apart-take, Apart-above, Apart-drop, Apart-distinct, IsFree,
}
use xeros_kernel.Memory.Segment.{Segment-split, Segment, addresses, Block}
use xeros_kernel.Memory.{
  kmalloc, mem_size, mem_header_size, merge_next, Headers, merge_mem_slot, insert_to_mem_list,
  is_outside, sanity_check, Layout, kfree, Heap,
}
use xeros_kernel.Base.{
  ◌≤◌, ==_self, sub32, ◌∙◌, true, some, false, ◌-◌, ◌^◌, sym, ==_iff, subst, ◌==◌, AllDistinct,
  Bool-cases, ◌+◌, length-append, refl, ap, inr, ◌∈◌, arith, inl, ◌<◌, length, ◌⊎◌, ◌≡◌, List, ℕ,
  [], ◌∷◌, ◌++◌,
}

last-split :
    (xs : List Block)
    → (xs ≡ []) ⊎ ((vs : List Block) × (x : ℕ) × (s : ℕ) × (xs ≡ vs ++ (x, s) ∷ []))
last-split [] = inl refl
last-split ((x, s) ∷ xs) = elim (last-split xs) [
  | inl e ↦ inr ([], x, s, rw e refl)
  | inr (vs, y, v, e) ↦ inr ((x, s) ∷ vs, y, v, rw e refl)
]

length-shorter :
    (vs : List Block) (x s : ℕ) (xs : List Block) → xs ≡ vs ++ (x, s) ∷ [] → length vs < length xs
length-shorter vs x s xs e = omega (arith, ap length e, length-append vs ((x, s) ∷ []))

module _ (f slot : ℕ) (h : Heap) (xs : List Block) (c z : ℕ) (ys : List Block)
    (w : IsFree h (xs ++ (c, z) ∷ ys)) (positive : 0 < slot)
    (under : (b : ℕ) → b ∈ addresses xs → b < slot) (lt : slot < c)
    (enough : length xs + 1 < f) where
  over : (b : ℕ) → b ∈ addresses ((c, z) ∷ ys) → slot < b
  over b m = elim (Bool-cases (b == c)) [
    | inl e ↦ omega (arith, (==_iff b c).0 e, lt)
    | inr e ↦
        omega (
          arith,
          lt,
          Apart-above (c + z + 16) ys b (Apart-drop 0 xs c z ys w.apart).1 (ground arith),
        )
  ]

  back_distinct : AllDistinct (addresses ((c, z) ∷ ys))
  back_distinct =
      Apart-distinct 0 ((c, z) ∷ ys)
        (omega (arith, (Apart-drop 0 xs c z ys w.apart).0), (Apart-drop 0 xs c z ys w.apart).1)

  first-Inserted : xs ≡ [] → Inserted f slot h xs ((c, z) ∷ ys)
  first-Inserted e =
      subst (λ vs. Inserted f slot h vs ((c, z) ∷ ys)) (sym e)
        (insert_front f slot h c z ys w.last
          (subst (λ vs. Segment h.headers null h.mem_list (vs ++ (c, z) ∷ ys) w.last null) e w.list)
          (ground (arith, positive)) over back_distinct (omega (arith, enough)))

  halves :
      (l : ℕ) × (r : ℕ) × Segment h.headers null h.mem_list xs l r
      × Segment h.headers l r ((c, z) ∷ ys) w.last null
  halves = Segment-split h.headers null h.mem_list xs ((c, z) ∷ ys) w.last null w.list

  later-Inserted :
      (vs : List Block) (x s : ℕ) → xs ≡ vs ++ (x, s) ∷ [] → Inserted f slot h xs ((c, z) ∷ ys)
  later-Inserted vs x s e =
      subst (λ us. Inserted f slot h us ((c, z) ∷ ys)) (sym e)
        (insert_behind f slot h vs x s halves.1 ((c, z) ∷ ys) w.last
          (subst (λ i. Segment h.headers null h.mem_list (vs ++ (x, s) ∷ []) i halves.1) (sym ends)
            run)
          (subst (λ i. Segment h.headers i halves.1 ((c, z) ∷ ys) w.last null) (sym ends) halves.3)
          (λ b m. (
            Apart-above 0 xs b (Apart-take 0 xs c z ys w.apart) (inside b m),
            under b (inside b m),
          ))
          over
          (subst (λ us. AllDistinct (addresses us)) e
            (Apart-distinct 0 xs (Apart-take 0 xs c z ys w.apart)))
          back_distinct (under x (inside x (mem-right x vs ((x, s) ∷ []) (ground arith))))
          (inr (omega (arith, halves.3.0, lt))) (omega (arith, length-shorter vs x s xs e, enough)))
    where
      run : Segment h.headers null h.mem_list (vs ++ (x, s) ∷ []) halves.0 halves.1
      run = subst (λ us. Segment h.headers null h.mem_list us halves.0 halves.1) e halves.2

      ends : x ≡ halves.0
      ends =
          let (l, r, v, k) =
            Segment-split h.headers null h.mem_list vs ((x, s) ∷ []) halves.0 halves.1 run in
          k.4.1

      inside : (b : ℕ) → b ∈ addresses (vs ++ (x, s) ∷ []) → b ∈ addresses xs
      inside b m = subst (λ us. b ∈ addresses us) (sym e) m

  pub inserted : Inserted f slot h xs ((c, z) ∷ ys)
  inserted = elim (last-split xs) [
    | inl e ↦ first-Inserted e
    | inr (vs, x, s, e) ↦ later-Inserted vs x s e
  ]

pub kfree-inserted :
    (f slot size : ℕ) (ly : Layout) (h h' : Heap)
    → slot < 2 ^ 32 - 16
    → is_outside ly (slot + 16) ≡ false
    → IsHandedOut h slot size
    → insert_to_mem_list f slot h ≡ some h'
    → kfree f ly (slot + 16) h ≡ some (true, record h' { headers = merge_mem_slot slot h'.headers })
unfolding kfree sanity_check
kfree-inserted f slot size ly h h' small inside out e =
    rw (same, inside, out.check, ==_self slot, e)
      (ap (λ i. some (true, record h' { headers = merge_mem_slot i h'.headers })) same)
  where
    same : sub32 (slot + 16) mem_header_size ≡ slot
    same = omega arith

module _ (f slot size : ℕ) (ly : Layout) (h : Heap) (xs : List Block) (c z : ℕ)
    (ys : List Block) where
  pub kfree-joins :
      IsFree h (xs ++ (c, z) ∷ ys)
      → IsHandedOut h slot size
      → slot + size + 16 ≡ c
      → Apart 0 (xs ++ (slot, size + 16 + z) ∷ ys)
      → is_outside ly (slot + 16) ≡ false
      → length xs + 1 < f
      → (h' : Heap) × (kfree f ly (slot + 16) h ≡ some (true, h'))
        × IsFree h' (xs ++ (slot, size + 16 + z) ∷ ys)
  kfree-joins w out near d inside enough = (
    record { headers = merge_next slot u; mem_list = p },
    kfree-inserted f slot size ly h (record { headers = u; mem_list = p }) (omega (arith, bound))
          inside out placed.4
        ∙ ap (λ t. some (true, record { headers = t; mem_list = p }))
            (merge_mem_slot-next u slot l c is.prev is.next
              (IsGap-before u null p 0 xs slot (size + 16 + z) ys l slot d (inl refl) is.front)
              is.back.1 (omega (arith, is.whole, near)) (omega (arith, near, bound))),
    merged-IsFree h.headers u p slot size l xs c z ys is d near,
  )
    where
      placed : Inserted f slot h xs ((c, z) ∷ ys)
      placed =
          inserted f slot h xs c z ys w
            (omega (arith, (Apart-drop 0 xs slot (size + 16 + z) ys d).0))
            (λ b m. Apart-below 0 xs slot (size + 16 + z) ys b d m) (omega (arith, near)) enough

      l : ℕ
      l = placed.0

      u : Headers
      u = placed.2

      p : ℕ
      p = placed.3

      is : IsInserted h.headers u p slot size l c xs ((c, z) ∷ ys)
      is =
          subst (λ i. IsInserted h.headers u p slot size l i xs ((c, z) ∷ ys)) placed.5.back.0
            (subst (λ i. IsInserted h.headers u p slot i l placed.1 xs ((c, z) ∷ ys)) out.size
              placed.5)

      bound : slot + (size + 16 + z) + 16 < 2 ^ 32
      bound =
          Apart-bound (slot + (size + 16 + z) + 16) ys (Apart-drop 0 xs slot (size + 16 + z) ys d).1

-- If the free blocks of xs are too small, the next one at a holds the size that `kmalloc` rounds
-- to and a header, its data is in the range of memory, and fuel is above the number of blocks in
-- front by two, then `kmalloc` returns a + 16, `kfree` of that address succeeds, and the free list
-- is the old one.
pub kmalloc-kfree :
    (f bytes : ℕ) (ly : Layout) (h : Heap) (xs : List Block) (a s : ℕ) (ys : List Block)
    → IsFree h (xs ++ (a, s) ∷ ys)
    → length xs + 1 < f
    → AllSmall (mem_size bytes) xs
    → mem_size bytes + 16 ≤ s
    → is_outside ly (a + 16) ≡ false
    → (h' : Heap) × (h'' : Heap) × (kmalloc f bytes h ≡ some (a + 16, h'))
      × (kfree f ly (a + 16) h' ≡ some (true, h''))
      × IsFree h'' (xs ++ (a, s) ∷ ys)
kmalloc-kfree f bytes ly h xs a s ys w enough small room inside =
    let (h', e, out, free) =
      kmalloc-cuts f bytes h xs a s ys w room (omega (arith, enough)) small in
    let size = mem_size bytes in
    let whole : size + 16 + (s - size - 16) ≡ s = omega (arith, room) in
    let (h'', e', free') =
      kfree-joins f a size ly h' xs (a + size + 16) (s - size - 16) ys free out refl
        (subst (λ i. Apart 0 (xs ++ (a, i) ∷ ys)) (sym whole) w.apart) inside enough in
    (h', h'', e, e', subst (λ i. IsFree h'' (xs ++ (a, i) ∷ ys)) whole free')
