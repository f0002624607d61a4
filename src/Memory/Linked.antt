-- ===== src/Memory/Linked.antt =====
-- `insertToMemList` on a list of free blocks.
use xeros_kernel.Memory.Relink.{
  mem-left, mem-right, rewind-run_front, Segment-behind, Segment-front,
}
use xeros_kernel.Memory.Insert.{
  link_at_end-IsLinked, insert_loop-walk, link_between-IsLinked, link_in_front-IsLinked, IsLinked,
}
use xeros_kernel.Memory.Allocate.{sanity_to-Alike, reallocate_mem_ptr-some}
use xeros_kernel.Process.{null}
use xeros_kernel.Memory.Segment.{Segment-frame, addresses, Segment, Block}
use xeros_kernel.Memory.{
  link_between, link_at_end, link_in_front, rewind, sanity_to, Heap, insert_loop,
  insert_to_mem_list, Headers,
}
use xeros_kernel.Base.{
  inl, ◌-◌, ◌==◌, ◌∙◌, if◌then◌else◌, ap, inr, sym, length, subst, [], ◌++◌, ◌∷◌, arith, ◌⊎◌, refl,
  lt→ltb, ==_ne, AllDistinct, suc, some, ◌∈◌, ◌<◌, ◌≢◌, ◌≡◌, List, ℕ,
}

-- The block at `slot` has its place between the blocks of xs and those of ys.
pub record IsInserted (t u : Headers) (p slot size l q : ℕ) (xs ys : List Block) : Type 0 where
  pub last : ℕ
  pub front : Segment u null p xs l slot
  pub back : Segment u slot q ys last null
  pub prev : (u slot).prev ≡ l
  pub next : (u slot).next ≡ q
  pub whole : (u slot).size ≡ size
  pub sizes : (x : ℕ) → (u x).size ≡ (t x).size

module _ (t u : Headers) (p slot l q : ℕ) (xs ys : List Block) (last : ℕ)
    (front : Segment t null p xs l q) (back : Segment t l q ys last null)
    (under : (c : ℕ) → c ∈ addresses xs → (0 < c) × (c < slot))
    (over : (c : ℕ) → c ∈ addresses ys → slot < c) (dx : AllDistinct (addresses xs))
    (dy : AllDistinct (addresses ys)) (lt : l < slot) (gap : (q ≡ null) ⊎ (slot < q))
    (is : IsLinked t u l slot q) where
  linked-IsInserted : (p' : ℕ) × IsInserted t u p' slot (t slot).size l q xs ys
  linked-IsInserted =
      let (p', f) =
        Segment-front t u p xs l q slot dx is.before (λ x m. is.size x)
          (λ x m. is.prev_other x (ground (arith, under x m)) (ground (arith, under x m, gap)))
          (λ x m h. is.next_other x (ground (arith, under x m)) (ground arith)) front in
      let (last', b) =
        Segment-behind t u l slot q ys last dy is.behind (λ x m. is.size x)
          (λ x m. is.next_other x (ground (arith, over x m)) (ground (arith, over x m, lt)))
          (λ x m h. is.prev_other x (ground (arith, over x m)) (ground arith)) back in
      (
        p',
        record {
          last = last';
          front = f;
          back = b;
          prev = is.prev_slot;
          next = is.next_slot;
          whole = is.size slot;
          sizes = is.size;
        },
      )

insert-found :
    (f slot p : ℕ) (h h' : Heap)
    → h.mem_list ≢ null
    → insert_loop f slot (record h { headers = sanity_to h.headers slot 0 }) ≡ some h'
    → h'.mem_list ≢ null
    → rewind f h'.headers h'.mem_list ≡ some p
    → insert_to_mem_list f slot h ≡ some (record h' { mem_list = p })
unfolding insert_to_mem_list
insert-found f slot p h h' nz e nz' r =
    rw (==_ne h.mem_list null nz, e) (reallocate_mem_ptr-some f p h' nz' r)

insert_loop-front :
    (f slot p : ℕ) (t : Headers)
    → (t p).prev ≡ null
    → slot < p
    → insert_loop (suc f) slot (record { headers = t; mem_list = p })
      ≡ some (record { headers = link_in_front slot p t; mem_list = p })
unfolding insert_loop
insert_loop-front f slot p t e h = rw (e, lt→ltb slot p h) refl

-- The result of `insertToMemList`.
abbrev pub Inserted : ℕ → ℕ → Heap → List Block → List Block → Type 0
Inserted f slot h xs ys =
    (l : ℕ) × (q : ℕ) × (u : Headers) × (p : ℕ) × (insert_to_mem_list f slot h
      ≡ some (record { headers = u; mem_list = p }))
    × IsInserted h.headers u p slot (h.headers slot).size l q xs ys

front-rewind :
    (f : ℕ) (t u : Headers) (p p' slot size y z : ℕ) (ys : List Block)
    → slot ≢ null
    → 1 < f
    → IsInserted t u p' slot size null p [] ((y, z) ∷ ys)
    → rewind f u p ≡ some p'
front-rewind f t u p p' slot size y z ys nz enough is =
    ap (rewind f u) is.back.0
    ∙ rewind-run_front f u slot ((slot, size) ∷ []) y z (u y).next enough (
      refl,
      nz,
      is.prev,
      is.whole,
      (is.next ∙ is.back.0, is.back.1, is.back.2, is.back.3, (refl, refl)),
    )
    ∙ ap some (sym is.front.0)

behind-rewind :
    (f : ℕ) (t u : Headers) (p' slot size x s q : ℕ) (xs ys : List Block)
    → length xs < f
    → IsInserted t u p' slot size x q (xs ++ (x, s) ∷ []) ys
    → rewind f u x ≡ some p'
behind-rewind f t u p' slot size x s q xs ys enough is =
    rewind-run_front f u p' xs x s slot enough is.front

module _ (f slot : ℕ) (h : Heap) (y z : ℕ) (ys : List Block) (last : ℕ) where
  pub insert_front :
      Segment h.headers null h.mem_list ((y, z) ∷ ys) last null
      → slot ≢ null
      → ((c : ℕ) → c ∈ addresses ((y, z) ∷ ys) → slot < c)
      → AllDistinct (addresses ((y, z) ∷ ys))
      → 1 < f
      → Inserted f slot h [] ((y, z) ∷ ys)
  insert_front w nz over d enough = (
    null,
    h.mem_list,
    link_in_front slot h.mem_list (sanity_to h.headers slot 0),
    placed.0,
    insert-found f slot placed.0 h
        (record h { headers = link_in_front slot h.mem_list (sanity_to h.headers slot 0) })
        (λ e. w.1 (sym w.0 ∙ e)) looped (λ e. w.1 (sym w.0 ∙ e))
        (front-rewind f h.headers (link_in_front slot h.mem_list (sanity_to h.headers slot 0))
          h.mem_list placed.0 slot (h.headers slot).size y z ys nz enough placed.1),
    placed.1,
  )
    where
      below : slot < h.mem_list
      below = omega (arith, w.0, over y (ground arith))

      placed :
          (p' : ℕ) × IsInserted h.headers
            (link_in_front slot h.mem_list (sanity_to h.headers slot 0))
            p'
            slot
            (h.headers slot).size
            null
            h.mem_list
            []
            ((y, z) ∷ ys)
      placed =
          linked-IsInserted h.headers (link_in_front slot h.mem_list (sanity_to h.headers slot 0))
            h.mem_list slot null h.mem_list [] ((y, z) ∷ ys) last (refl, refl) w
            (λ c m. absurd (ground arith)) over tt d (omega (arith, nz)) (inr below)
            (link_in_front-IsLinked slot h.mem_list h.headers below)

      first : ((sanity_to h.headers slot 0) h.mem_list).prev ≡ null
      first =
          (sanity_to-Alike h.headers slot 0 h.mem_list).1 ∙ ap (λ i. (h.headers i).prev) w.0 ∙ w.2

      looped :
          insert_loop f slot (record h { headers = sanity_to h.headers slot 0 })
          ≡ some (record h { headers = link_in_front slot h.mem_list (sanity_to h.headers slot 0) })
      looped =
          ap (λ i. insert_loop i slot (record h { headers = sanity_to h.headers slot 0 }))
            {y = suc (f - 1)} (omega arith)
          ∙ insert_loop-front (f - 1) slot h.mem_list (sanity_to h.headers slot 0) first below

module _ (f slot : ℕ) (h : Heap) (xs : List Block) (x s q : ℕ) (ys : List Block) (last : ℕ) where
  pub insert_behind :
      Segment h.headers null h.mem_list (xs ++ (x, s) ∷ []) x q
      → Segment h.headers x q ys last null
      → ((c : ℕ) → c ∈ addresses (xs ++ (x, s) ∷ []) → (0 < c) × (c < slot))
      → ((c : ℕ) → c ∈ addresses ys → slot < c)
      → AllDistinct (addresses (xs ++ (x, s) ∷ []))
      → AllDistinct (addresses ys)
      → x < slot
      → (q ≡ null) ⊎ (slot < q)
      → length xs < f
      → Inserted f slot h (xs ++ (x, s) ∷ []) ys
  insert_behind w v under over dx dy lt gap enough = (
    x,
    q,
    linked,
    placed.0,
    insert-found f slot placed.0 h (record { headers = linked; mem_list = x }) (mem_list-some xs w)
        looped (λ e. absurd (omega (arith, e, (under x last_in).0)))
        (behind-rewind f h.headers linked placed.0 slot (h.headers slot).size x s q xs ys enough
          placed.1),
    placed.1,
  )
    where
      linked : Headers
      linked =
          let t = sanity_to h.headers slot 0 in
          if q == null then link_at_end x slot t else link_between x slot q t

      is : IsLinked h.headers linked x slot q
      is = elim gap [
        | inl e ↦
            subst
              (λ i.
                IsLinked h.headers
                  (if i == null
                    then link_at_end x slot (sanity_to h.headers slot 0)
                    else link_between x slot i (sanity_to h.headers slot 0))
                  x slot i)
              (sym e) (link_at_end-IsLinked x slot h.headers lt)
        | inr e ↦
            rw (==_ne q null (omega (arith, e))) (link_between-IsLinked x slot q h.headers lt e)
      ]

      last_in : x ∈ addresses (xs ++ (x, s) ∷ [])
      last_in = mem-right x xs ((x, s) ∷ []) (ground arith)

      mem_list-some :
          (vs : List Block)
          → Segment h.headers null h.mem_list (vs ++ (x, s) ∷ []) x q
          → h.mem_list ≢ null
      mem_list-some [] k e = k.1 (sym k.0 ∙ e)
      mem_list-some ((i, j) ∷ vs) k e = k.1 (sym k.0 ∙ e)

      placed :
          (p' : ℕ) × IsInserted h.headers linked p' slot
            (h.headers slot).size
            x
            q
            (xs ++ (x, s) ∷ [])
            ys
      placed =
          linked-IsInserted h.headers linked h.mem_list slot x q (xs ++ (x, s) ∷ []) ys last w v
            under over dx dy lt gap is

      looped :
          insert_loop f slot (record h { headers = sanity_to h.headers slot 0 })
          ≡ some (record { headers = linked; mem_list = x })
      looped =
          insert_loop-walk f (sanity_to h.headers slot 0) null h.mem_list slot xs x s q enough
            (Segment-frame h.headers (sanity_to h.headers slot 0) null h.mem_list
              (xs ++ (x, s) ∷ []) x q (λ c m. sanity_to-Alike h.headers slot 0 c) w)
            (λ c m. (under c (mem-left c xs ((x, s) ∷ []) m)).1) lt gap
