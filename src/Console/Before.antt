-- ===== src/Console/Before.antt =====
-- A backspace on the first character of the screen, in c/kprintf.c.
use xeros_kernel.Console.Refines.{then_rest}
use xeros_kernel.Console.Cells.{IsBlkcopy}
use xeros_kernel.Console.Tab.{started_lem, used-with_screen}
use xeros_kernel.Console.Shows.{Shows}
use xeros_kernel.Console.Page.{Page}
use xeros_kernel.Console.{
  finished, cga_buf, put_plain, kputc, with_screen, kprintf_chars, switch, move_up, kbmputc, cursor,
  Screen, scroll, Display, finish,
}
use xeros_kernel.Base.{
  refl, ◌∙◌, ◌≤◌, ==_ne, arith, ◌-◌, ◌≢◌, lt→leb, if◌then◌else◌, ap, sub32, some, sdiv, ◌≡◌, ◌+◌,
  ◌<◌, ℕ, [], ◌∷◌,
}

-- A step on the screen that needs no scroll.
finish-inside :
    (d : Display) (u : Screen)
    → u.crtat < u.base + 4000
    → finish d u ≡ cursor (sdiv (sub32 u.crtat u.base) 2) u
unfolding finish scroll
finish-inside d u l =
    ap (λ b. let t = if b then move_up d u else u in cursor (sdiv (sub32 t.crtat t.base) 2) t)
      (lt→leb (u.base + 4000) u.crtat l)

-- What a plain character is.
abbrev pub IsPrinted : ℕ → Type 0
IsPrinted c = (c ≢ 0) × (c ≢ 9) × (c ≢ 8) × (c ≢ 10) × (c ≢ 13)

-- A plain character before the screen lands in the memory there.
plain_before :
    (d : Display) (c : ℕ) (u : Screen) (b : ℕ)
    → IsPrinted c
    → u.base ≡ b + 2
    → u.crtat ≡ b
    → 0 < b
    → b < cga_buf
    → (t : Screen) × (kbmputc d c u ≡ some t) × (t.memory b ≡ c)
unfolding kbmputc switch put_plain cursor
plain_before d c u b plain base at pos low =
    let s0 : with_screen d u ≡ u = used-with_screen d u (λ z. omega (arith, z, at, pos)) in
    let e0 = ==_ne c 0 plain.0 in
    let v = put_plain c u in
    let out = finish d v in
    let chosen : switch d c u ≡ some v =
      rw (==_ne c 9 plain.1, ==_ne c 8 plain.2, ==_ne c 10 plain.3, ==_ne c 13 plain.4) refl in
    (
      out,
      ap (λ x. if x then some u else finished d (switch d c (with_screen d u))) e0
          ∙ ap (λ w. finished d (switch d c w)) s0
          ∙ ap (finished d) chosen,
      ap (λ t. t.memory b) (finish-inside d v (omega (arith, at, base, low)))
          ∙ ground (arith, at, low),
    )

module _ (d : Display) (copies : IsBlkcopy d.blkcopy) (s : Screen) (p : Page) (h : Shows s p)
    (first : p.pos ≡ 0) where
  -- If the screen shows a page with the cursor at the first place, the output of a backspace and a
  -- character that is not 0, a tab, a backspace, a newline or a return ends with that character in
  -- the memory two bytes in front of the screen.
  pub backspace_before :
      (c : ℕ)
      → IsPrinted c
      → (t : Screen) × (kprintf_chars d (8 ∷ c ∷ []) s ≡ some t) × (t.memory (s.base - 2) ≡ c)
  unfolding then_rest kprintf_chars kputc kbmputc switch finish cursor
  backspace_before c plain =
      let low : 16 ≤ s.base = omega (arith, h.low, h.aligned) in
      let b = s.base - 2 in
      let u = record s { crtat = sub32 s.crtat 2 } in
      let at : u.crtat ≡ b = omega (arith, h.at, first, low, h.bound) in
      let n = sdiv (sub32 u.crtat u.base) 2 in
      let back : kbmputc d 8 s ≡ some (cursor n u) =
        ap (λ w. finished d (switch d 8 w)) (started_lem d copies s p h)
        ∙ ap some (finish-inside d u (omega (arith, at, low))) in
      let out =
        plain_before d c (cursor n u) b plain (omega (arith, low)) at (omega (arith, low))
          (omega (arith, low, h.bound)) in
      (out.0, ap (then_rest d 8 (c ∷ [])) back ∙ ap (then_rest d c []) out.1, out.2)
