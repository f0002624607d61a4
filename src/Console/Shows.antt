-- ===== src/Console/Shows.antt =====
-- The output of c/kprintf.c to a screen in use, against the lines and columns of Console/Page.
use xeros_kernel.Console.Cells.{
  clear_line-above, clear_line-blank, clear_line-below, IsBlkcopy, IsOutside,
}
use xeros_kernel.Console.Page.{scroll_up-inside, scroll_up-moves, scroll_up, Page}
use xeros_kernel.Console.{
  clear_line, move_up, Display, scroll, to_line_start, put_plain, cga_buf, Screen,
}
use xeros_kernel.Base.{
  lt→ltb, ◌-◌, ltb→lt, ltb, le→leb, leb→le, ◌^◌, inr, lt→leb, inl, false, leb, is_neg, Bool-cases,
  ap, srem, refl, ◌==◌, ◌*◌, ◌/◌, arith, if◌then◌else◌, sub32, sym, ◌+◌, ◌<◌, subst, ◌%◌, ◌∙◌, ◌≡◌,
  ◌≤◌, ℕ,
}

-- The memory of the screen holds the characters of `p`, and the cursor stands at its place.
pub record Shows (s : Screen) (p : Page) : Type 0 where
  pub aligned : s.base % 16 ≡ 0
  pub bound : s.base ≤ cga_buf
  pub low : 0 < s.base
  pub at : s.crtat ≡ s.base + 2 * p.pos
  pub cell : (i : ℕ) → i < 2000 → s.memory (s.base + 2 * i) ≡ p.cells i

-- The screen stays where it is, and the memory outside it as it was.
pub record Keeps (s t : Screen) : Type 0 where
  pub same : t.base ≡ s.base
  pub outside : (a : ℕ) → IsOutside s.base a → t.memory a ≡ s.memory a

pub Keeps-self : (s : Screen) → Keeps s s
Keeps-self s = record { same = refl; outside = λ a o. refl }

pub Keeps-trans : (s t u : Screen) → Keeps s t → Keeps t u → Keeps s u
Keeps-trans s t u h k = record {
  same = k.same ∙ h.same;
  outside = λ a o. k.outside a (subst (λ b. IsOutside b a) (sym h.same) o) ∙ h.outside a o;
}

-- The arithmetic of a return to the start of the line.
line_start :
    (b pos : ℕ)
    → b ≤ cga_buf
    → pos < 2080
    → sub32 (b + 2 * pos) (srem (sub32 (b + 2 * pos) b) 160) ≡ b + 2 * (pos / 80 * 80)
line_start b pos h r =
    let e : sub32 (b + 2 * pos) b ≡ 2 * pos = omega (arith, h, r) in
    let n : is_neg (2 * pos) ≡ false = lt→leb (2 ^ 31) (2 * pos) (omega (arith, r)) in
    rw (e, n) (omega (arith, h, r))

module _ (s : Screen) (p : Page) (h : Shows s p) where
  pub put_plain-Shows :
      (c : ℕ)
      → p.pos < 2000
      → Shows
          (put_plain c s)
          (record { cells = λ i. if i == p.pos then c else p.cells i; pos = p.pos + 1 })
  unfolding put_plain
  put_plain-Shows c r = record {
    aligned = h.aligned;
    bound = h.bound;
    low = h.low;
    at = omega (arith, h.at, h.bound, r);
    cell = λ i k. ground (arith, h.at, h.cell i k, h.bound);
  }

  pub put_plain-Keeps : (c : ℕ) → p.pos < 2000 → Keeps s (put_plain c s)
  unfolding put_plain
  put_plain-Keeps c r = record { same = refl; outside = λ a o. ground (arith, h.at, h.bound, r, o) }

  pub to_line_start-Shows :
      p.pos < 2080 → Shows (to_line_start s) (record p { pos = p.pos / 80 * 80 })
  unfolding to_line_start
  to_line_start-Shows r = record {
    aligned = h.aligned;
    bound = h.bound;
    low = h.low;
    at = ap (λ w. sub32 w (srem (sub32 w s.base) 160)) h.at ∙ line_start s.base p.pos h.bound r;
    cell = h.cell;
  }

  scroll-inside : (d : Display) → p.pos < 2000 → scroll d s ≡ s
  unfolding scroll
  scroll-inside d r = rw (lt→leb (s.base + 4000) s.crtat (omega (arith, h.at, r))) refl

  scroll-moves : (d : Display) → p.pos ≡ 2000 → scroll d s ≡ move_up d s
  unfolding scroll
  scroll-moves d e = rw (le→leb (s.base + 4000) s.crtat (omega (arith, h.at, e))) refl

  -- What the memory holds at the characters once the text has moved up.
  moved_cell :
      (d : Display)
      → IsBlkcopy d.blkcopy
      → (i : ℕ) → i < 2000
      → (move_up d s).memory (s.base + 2 * i) ≡ (if ltb i 1920 then p.cells (i + 80) else 32)
  unfolding move_up
  moved_cell d copies i k =
      let m' = d.blkcopy s.memory s.base (s.base + 160) 3840 in
      elim (Bool-cases (ltb i 1920)) [
        | inl e ↦
            let b : s.base + 2 * i < s.base + 3840 = omega (arith, ltb→lt i 1920 e) in
            clear_line-below 80 (s.base + 3840) m' (s.base + 2 * i) b
            ∙ copies s.memory s.base (s.base + 160) 3840 (s.base + 2 * i)
            ∙ rw
                (
                  le→leb s.base (s.base + 2 * i) (omega arith),
                  lt→ltb (s.base + 2 * i) (s.base + 3840) b,
                  e,
                )
                (ap s.memory (omega arith) ∙ h.cell (i + 80) (omega (arith, ltb→lt i 1920 e)))
        | inr e ↦
            let l : 1920 ≤ i = ground (arith, e) in
            let a : s.base + 2 * i ≡ s.base + 3840 + 2 * (i - 1920) = omega (arith, l) in
            ap (clear_line 80 (s.base + 3840) m') a
            ∙ clear_line-blank 80 (s.base + 3840) m' (i - 1920) (omega (arith, k, l))
            ∙ rw e refl
      ]

  move_up-Shows :
      (d : Display)
      → IsBlkcopy d.blkcopy
      → p.pos ≡ 2000
      → Shows
          (move_up d s)
          (record { cells = λ i. if ltb i 1920 then p.cells (i + 80) else 32; pos = p.pos - 80 })
  unfolding move_up
  move_up-Shows d copies e = record {
    aligned = h.aligned;
    bound = h.bound;
    low = h.low;
    at = omega (arith, h.at, h.bound, e);
    cell = moved_cell d copies;
  }

  move_up-Keeps : (d : Display) → IsBlkcopy d.blkcopy → Keeps s (move_up d s)
  unfolding move_up
  move_up-Keeps d copies = record {
    same = refl;
    outside = λ a o.
        let m' = d.blkcopy s.memory s.base (s.base + 160) 3840 in
        let c = copies s.memory s.base (s.base + 160) 3840 a in
        elim o [
          | inl b ↦
              clear_line-below 80 (s.base + 3840) m' a (omega (arith, b))
              ∙ c
              ∙ rw (lt→leb s.base a b) refl
          | inr b ↦
              clear_line-above 80 (s.base + 3840) m' a (omega (arith, b)) ∙ c ∙ ground (arith, b)
        ];
  }

  pub scroll-Shows :
      (d : Display) → IsBlkcopy d.blkcopy → p.pos ≤ 2000 → Shows (scroll d s) (scroll_up p)
  scroll-Shows d copies r = elim (Bool-cases (leb 2000 p.pos)) [
    | inl e ↦
        let e' : p.pos ≡ 2000 = omega (arith, r, leb→le 2000 p.pos e) in
        subst (λ t. Shows t (scroll_up p)) (sym (scroll-moves d e'))
          (subst (Shows (move_up d s)) (sym (scroll_up-moves p e)) (move_up-Shows d copies e'))
    | inr e ↦
        let l : p.pos < 2000 = ground (arith, e) in
        subst (λ t. Shows t (scroll_up p)) (sym (scroll-inside d l))
          (subst (Shows s) (sym (scroll_up-inside p l)) h)
  ]

  pub scroll-Keeps : (d : Display) → IsBlkcopy d.blkcopy → p.pos ≤ 2000 → Keeps s (scroll d s)
  scroll-Keeps d copies r = elim (Bool-cases (leb 2000 p.pos)) [
    | inl e ↦
        let e' : p.pos ≡ 2000 = omega (arith, r, leb→le 2000 p.pos e) in
        subst (Keeps s) (sym (scroll-moves d e')) (move_up-Keeps d copies)
    | inr e ↦ subst (Keeps s) (sym (scroll-inside d (ground (arith, e)))) (Keeps-self s)
  ]
