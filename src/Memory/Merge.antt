-- ===== src/Memory/Merge.antt =====
-- `mergeMemSlot`.
use xeros_kernel.Memory.Relink.{Segment-behind}
use xeros_kernel.Memory.Part.{behind-lt}
use xeros_kernel.Memory.Linked.{IsInserted}
use xeros_kernel.Memory.Apart.{
  Apart-below, Apart-take, Apart-above, Apart-distinct, IsFree, Apart-bound, Apart-drop, Apart,
}
use xeros_kernel.Memory.Segment.{addresses, Segment-append, Segment-frame, Segment, Block}
use xeros_kernel.Process.{null}
use xeros_kernel.Memory.{touches, merge_mem_slot, merge_next, Headers}
use xeros_kernel.Base.{
  subst, ◌∈◌, true, refl, ◌&&◌, ◌==◌, not, inr, ◌∙◌, sym, inl, false, arith, ◌⊎◌, ◌^◌, ◌<◌, ◌≢◌,
  ◌+◌, List, ◌≡◌, ℕ, [], ◌∷◌, ◌++◌,
}

-- The block at `slot` has swallowed the one at q.
record IsJoined (t u : Headers) (slot q : ℕ) : Type 0 where
  size_slot : (u slot).size ≡ (t slot).size + 16 + (t q).size
  next_slot : (u slot).next ≡ (t q).next
  behind : (t q).next ≢ null → (u (t q).next).prev ≡ slot
  size_other : (x : ℕ) → x ≢ slot → (u x).size ≡ (t x).size
  prev_other : (x : ℕ) → x ≢ (t q).next → (u x).prev ≡ (t x).prev
  next_other : (x : ℕ) → x ≢ slot → (u x).next ≡ (t x).next
  prev_slot : (u slot).prev ≡ (t slot).prev

merge_next-IsJoined :
    (t : Headers) (slot q : ℕ)
    → (t slot).next ≡ q
    → q ≢ slot
    → (t q).next ≢ slot
    → (t slot).size + 16 + (t q).size < 2 ^ 32
    → IsJoined t (merge_next slot t) slot q
unfolding merge_next
merge_next-IsJoined t slot q e a b small = rw e record {
  size_slot = ground arith;
  next_slot = ground arith;
  behind = λ nz. ground arith;
  size_other = λ x c. ground arith;
  prev_other = λ x c. ground arith;
  next_other = λ x c. ground arith;
  prev_slot = ground arith;
}

-- Nothing ends where `slot` starts.
abbrev pub IsGap : Headers → ℕ → ℕ → Type 0
IsGap t l slot = (l ≡ null) ⊎ (l + (t l).size + 16 < slot)

pub IsGap-before :
    (t : Headers) (back p low : ℕ) (xs : List Block) (a s : ℕ) (ys : List Block) (l q : ℕ)
    → Apart low (xs ++ (a, s) ∷ ys)
    → (back ≡ null) ⊎ (back + (t back).size + 16 ≡ low)
    → Segment t back p xs l q
    → IsGap t l a
IsGap-before t back p low [] a s ys l q d (inl e) (g, i) = inl (sym i ∙ e)
IsGap-before t back p low [] a s ys l q d (inr e) (g, i) = inr (rw (← i) (omega (arith, e, d.0)))
IsGap-before t back p low ((x, v) ∷ xs) a s ys l q d b (e, nz, i, n, w) =
    IsGap-before t x (t x).next (x + v + 16) xs a s ys l q d.1 (inr (omega (arith, n))) w

untouched : (t : Headers) (slot q : ℕ) → slot + (t slot).size + 16 < q → touches t slot q ≡ false
untouched t slot q h = ground arith

no_left :
    (t : Headers) (l slot : ℕ) → IsGap t l slot → (not (l == null) && touches t l slot) ≡ false
no_left t l slot (inl e) = rw e refl
no_left t l slot (inr h) = rw (untouched t l slot h) (ground arith)

no_right :
    (t : Headers) (slot q : ℕ)
    → (q ≡ null) ⊎ (slot + (t slot).size + 16 < q)
    → (not (q == null) && touches t slot q) ≡ false
no_right t slot q (inl e) = rw e refl
no_right t slot q (inr h) = rw (untouched t slot q h) (ground arith)

right :
    (t : Headers) (slot q : ℕ)
    → q ≢ null
    → slot + (t slot).size + 16 ≡ q
    → q < 2 ^ 32
    → (not (q == null) && touches t slot q) ≡ true
right t slot q nz e small = ground arith

pub merge_mem_slot-next :
    (t : Headers) (slot l q : ℕ)
    → (t slot).prev ≡ l
    → (t slot).next ≡ q
    → IsGap t l slot
    → q ≢ null
    → slot + (t slot).size + 16 ≡ q
    → q < 2 ^ 32
    → merge_mem_slot slot t ≡ merge_next slot t
unfolding merge_mem_slot
merge_mem_slot-next t slot l q a b gap nz e small =
    rw (a, no_left t l slot gap, b, right t slot q nz e small) refl

pub merge_mem_slot-none :
    (t : Headers) (slot l q : ℕ)
    → (t slot).prev ≡ l
    → (t slot).next ≡ q
    → IsGap t l slot
    → (q ≡ null) ⊎ (slot + (t slot).size + 16 < q)
    → merge_mem_slot slot t ≡ t
unfolding merge_mem_slot
merge_mem_slot-none t slot l q a b gap h = rw (a, no_left t l slot gap, b, no_right t slot q h) refl

-- The free blocks once the block at `slot` has its place, and has swallowed the one behind it.
module _ (t u : Headers) (p slot size l : ℕ) (xs : List Block) (c z : ℕ) (ys : List Block)
    (is : IsInserted t u p slot size l c xs ((c, z) ∷ ys))
    (d : Apart 0 (xs ++ (slot, size + 16 + z) ∷ ys)) (near : slot + size + 16 ≡ c) where
  abbrev n : ℕ
  n = (u c).next

  above : (n ≡ null) ⊎ (slot + (size + 16 + z) + 16 < n)
  above =
      behind-lt u c (u c).next (slot + (size + 16 + z) + 16) ys is.last
        (Apart-drop 0 xs slot (size + 16 + z) ys d).1 is.back.4

  positive : 0 < slot
  positive = omega (arith, (Apart-drop 0 xs slot (size + 16 + z) ys d).0)

  bound : slot + (size + 16 + z) + 16 < 2 ^ 32
  bound = Apart-bound (slot + (size + 16 + z) + 16) ys (Apart-drop 0 xs slot (size + 16 + z) ys d).1

  joined : IsJoined u (merge_next slot u) slot c
  joined =
      merge_next-IsJoined u slot c is.next (omega (arith, near)) (ground (arith, above, positive))
        (omega (arith, is.whole, is.back.3, bound))

  in_front : (x : ℕ) → x ∈ addresses xs → (0 < x) × (x < slot)
  in_front x m = (
    Apart-above 0 xs x (Apart-take 0 xs slot (size + 16 + z) ys d) m,
    Apart-below 0 xs slot (size + 16 + z) ys x d m,
  )

  in_back : (x : ℕ) → x ∈ addresses ys → slot < x
  in_back x m = omega (
    arith,
    Apart-above (slot + (size + 16 + z) + 16) ys x (Apart-drop 0 xs slot (size + 16 + z) ys d).1 m,
  )

  merged_front : Segment (merge_next slot u) null p xs l slot
  merged_front =
      Segment-frame u (merge_next slot u) null p xs l slot
        (λ x m. (
          joined.size_other x (ground (arith, in_front x m)),
          joined.prev_other x (ground (arith, in_front x m, above)),
          joined.next_other x (ground (arith, in_front x m)),
        ))
        is.front

  merged_back : (last' : ℕ) × Segment (merge_next slot u) slot n ys last' null
  merged_back =
      Segment-behind u (merge_next slot u) c slot n ys is.last
        (Apart-distinct (slot + (size + 16 + z) + 16) ys
          (Apart-drop 0 xs slot (size + 16 + z) ys d).1)
        joined.behind (λ x m. joined.size_other x (ground (arith, in_back x m)))
        (λ x m. joined.next_other x (ground (arith, in_back x m)))
        (λ x m h. joined.prev_other x (ground arith)) is.back.4

  pub merged-IsFree :
      IsFree
        (record { headers = merge_next slot u; mem_list = p })
        (xs ++ (slot, size + 16 + z) ∷ ys)
  merged-IsFree = record {
    last = merged_back.0;
    list =
        Segment-append (merge_next slot u) null p xs ((slot, size + 16 + z) ∷ ys) l slot
          merged_back.0 null merged_front
          (
            refl,
            ground (arith, positive),
            joined.prev_slot ∙ is.prev,
            omega (arith, joined.size_slot, is.whole, is.back.3),
            subst (λ i. Segment (merge_next slot u) slot i ys merged_back.0 null)
                (sym joined.next_slot) merged_back.1,
          );
    apart = d;
  }
