-- ===== src/Memory/Insert.antt =====
-- `insertToMemList`.
use xeros_kernel.Memory.Segment.{addresses, Segment, Block}
use xeros_kernel.Process.{null}
use xeros_kernel.Memory.{link_between, link_at_end, link_in_front, sanity_to, insert_loop, Headers}
use xeros_kernel.Base.{
  ltb, ◌∙◌, false, sym, ◌&&◌, Bool, zero, lt→ltb, ==_ne, inr, le→ltb, inl, suc, ◌==◌, if◌then◌else◌,
  some, ◌⊎◌, ◌∈◌, refl, length, arith, ◌≢◌, List, ◌<◌, ◌≡◌, ℕ, [], ◌∷◌, ◌++◌,
}

-- `slot` stands between l and q now.
pub record IsLinked (t u : Headers) (l slot q : ℕ) : Type 0 where
  pub size : (x : ℕ) → (u x).size ≡ (t x).size
  pub prev_slot : (u slot).prev ≡ l
  pub next_slot : (u slot).next ≡ q
  pub before : l ≢ null → (u l).next ≡ slot
  pub behind : q ≢ null → (u q).prev ≡ slot
  pub prev_other : (x : ℕ) → x ≢ slot → x ≢ q → (u x).prev ≡ (t x).prev
  pub next_other : (x : ℕ) → x ≢ slot → x ≢ l → (u x).next ≡ (t x).next

pub link_in_front-IsLinked :
    (slot p : ℕ) (t : Headers)
    → slot < p
    → IsLinked t (link_in_front slot p (sanity_to t slot 0)) null slot p
unfolding link_in_front
link_in_front-IsLinked slot p t h = record {
  size = λ x. ground arith;
  prev_slot = ground arith;
  next_slot = ground arith;
  before = λ nz. absurd (nz refl);
  behind = λ nz. ground arith;
  prev_other = λ x a b. ground arith;
  next_other = λ x a b. ground arith;
}

pub link_at_end-IsLinked :
    (p slot : ℕ) (t : Headers)
    → p < slot
    → IsLinked t (link_at_end p slot (sanity_to t slot 0)) p slot null
unfolding link_at_end
link_at_end-IsLinked p slot t h = record {
  size = λ x. ground arith;
  prev_slot = ground arith;
  next_slot = ground arith;
  before = λ nz. ground arith;
  behind = λ nz. absurd (nz refl);
  prev_other = λ x a b. ground arith;
  next_other = λ x a b. ground arith;
}

pub link_between-IsLinked :
    (p slot next : ℕ) (t : Headers)
    → p < slot
    → slot < next
    → IsLinked t (link_between p slot next (sanity_to t slot 0)) p slot next
unfolding link_between
link_between-IsLinked p slot next t h k = record {
  size = λ x. ground arith;
  prev_slot = ground arith;
  next_slot = ground arith;
  before = λ nz. ground arith;
  behind = λ nz. ground arith;
  prev_other = λ x a b. ground arith;
  next_other = λ x a b. ground arith;
}

&&_false : (b : Bool) → (b && false) ≡ false
&&_false b = ground arith

-- The loop ends with `slot` linked behind the block at x.
pub insert_loop-walk :
    (f : ℕ) (t : Headers) (back p slot : ℕ) (xs : List Block) (x s q : ℕ)
    → length xs < f
    → Segment t back p (xs ++ (x, s) ∷ []) x q
    → ((c : ℕ) → c ∈ addresses xs → c < slot)
    → x < slot
    → (q ≡ null) ⊎ (slot < q)
    → insert_loop f slot (record { headers = t; mem_list = p })
      ≡ some (record {
        headers = if q == null then link_at_end x slot t else link_between x slot q t;
        mem_list = x;
      })
unfolding insert_loop
insert_loop-walk zero t back p slot xs x s q h w below lt gap = absurd (omega arith)
insert_loop-walk (suc f) t back p slot [] x s q h (e, nz, b, n, (g, i)) below lt (inl j) =
    rw (e, le→ltb slot x (omega arith), &&_false ((t x).prev == null), g, j) refl
insert_loop-walk (suc f) t back p slot [] x s q h (e, nz, b, n, (g, i)) below lt (inr j) =
    rw
      (
        e,
        le→ltb slot x (omega arith),
        &&_false ((t x).prev == null),
        g,
        ==_ne q null (omega (arith, j)),
        lt→ltb x slot lt,
        lt→ltb slot q j,
      )
      refl
insert_loop-walk (suc f) t back p slot ((y, v) ∷ ys) x s q h (e, nz, b, n, w) below lt gap =
    rw
      (
        e,
        le→ltb slot y (omega (arith, below y (ground arith))),
        &&_false ((t y).prev == null),
        ==_ne (t y).next null (going ys w (λ c m. below c (ground arith))).0,
        le→ltb slot (t y).next (omega (arith, (going ys w (λ c m. below c (ground arith))).1)),
        &&_false (ltb y slot),
      )
      (insert_loop-walk f t y (t y).next slot ys x s q (omega arith) w
        (λ c m. below c (ground arith)) lt gap)
  where
    going :
        (vs : List Block)
        → Segment t y (t y).next (vs ++ (x, s) ∷ []) x q
        → ((c : ℕ) → c ∈ addresses vs → c < slot)
        → ((t y).next ≢ null) × ((t y).next < slot)
    going [] k under = ((λ z. k.1 (sym k.0 ∙ z)), omega (arith, k.0, lt))
    going ((i, j) ∷ vs) k under =
        ((λ z. k.1 (sym k.0 ∙ z)), omega (arith, k.0, under i (ground arith)))
