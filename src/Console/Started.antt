-- ===== src/Console/Started.antt =====
-- The first character of c/kprintf.c: the probe of the display, and where the output starts.
use xeros_kernel.Console.Tab.{started_lem}
use xeros_kernel.Console.Refines.{kprintf_chars-Gives, then_rest}
use xeros_kernel.Console.Cells.{clean-blank, clean-below, IsBlkcopy}
use xeros_kernel.Console.Shows.{Shows}
use xeros_kernel.Console.{
  switch, finished, kputc, kbmputc, clean, kprintf_chars, clean_display, with_screen, find_cursor,
  probe, cga_buf, Screen, Display,
}
use xeros_kernel.Console.Page.{IsInside, Page, typed_all}
use xeros_kernel.Console.Probe.{probe-colour}
use xeros_kernel.Base.{
  sym, ==_ne, subst, ◌==◌, ap, ◌≤◌, ◌∙◌, ltb→lt, some, Bool-cases, true, ◌/◌, inr, List, ◌-◌, inl,
  arith, refl, ◌<◌, leb, ◌≢◌, ltb, ◌≡◌, if◌then◌else◌, ◌+◌, ◌*◌, ℕ, ◌∷◌,
}

-- The place of the cursor that the display gives, or the first one if that is not on the screen.
abbrev pub first_pos : Display → ℕ
first_pos d =
    let cursorat = d.cursor_hi * 256 + d.cursor_lo in if ltb cursorat 2000 then cursorat else 0

-- The screen is blank from there on, and holds what it held before.
abbrev pub first_page : Display → Screen → Page
first_page d s = record {
  cells = λ i. if ltb i (first_pos d) then s.memory (cga_buf + 2 * i) else 32;
  pos = first_pos d;
}

cursor_place :
    (b x : ℕ)
    → x ≢ 2000
    → (if leb x 2000 then b + x * 2 else b) ≡ b + 2 * (if ltb x 2000 then x else 0)
cursor_place b x h = ground arith

first_pos-room : (d : Display) → first_pos d < 2000
first_pos-room d = ground arith

cleaned-Shows :
    (d : Display) (t : Screen)
    → t.base ≡ cga_buf
    → d.cursor_hi * 256 + d.cursor_lo ≢ 2000
    → Shows (clean_display (find_cursor d t)) (record {
      cells = λ i. if ltb i (first_pos d) then t.memory (t.base + 2 * i) else 32;
      pos = first_pos d;
    })
unfolding clean_display find_cursor
cleaned-Shows d t b sane =
    let place = cursor_place t.base (d.cursor_hi * 256 + d.cursor_lo) sane in
    let u = find_cursor d t in
    let n = (t.base + 4000 - u.crtat) / 2 in
    let count : n ≡ 2000 - first_pos d = omega (arith, place, first_pos-room d) in
    record {
      aligned = omega (arith, b);
      bound = omega (arith, b);
      low = omega (arith, b);
      at = place;
      cell = λ i k. elim (Bool-cases (ltb i (first_pos d))) [
        | inl e ↦
            clean-below n u.crtat t.memory (t.base + 2 * i)
              (omega (arith, place, ltb→lt i (first_pos d) e))
            ∙ rw e refl
        | inr e ↦
            let l : first_pos d ≤ i = ground (arith, e) in
            ap (clean n u.crtat t.memory) (omega (arith, place, l))
            ∙ clean-blank n u.crtat t.memory (i - first_pos d) (omega (arith, count, k, l))
            ∙ rw e refl
      ];
    }

module _ (d : Display) (s : Screen) (unused : s.crtat ≡ 0) (b : s.base ≡ cga_buf)
    (colour : d.has_colour ≡ true) (bytes : (a : ℕ) → s.memory a < 256)
    (sane : d.cursor_hi * 256 + d.cursor_lo ≢ 2000) where
  with_screen-Shows : Shows (with_screen d s) (first_page d s)
  unfolding with_screen
  with_screen-Shows =
      let first = clean_display (find_cursor d (probe d s)) in
      let e : with_screen d s ≡ first = ap (λ w. if w == 0 then first else s) unused in
      let found = probe-colour d s b colour bytes in
      let h = cleaned-Shows d (probe d s) found.0 sane in
      subst (λ t. Shows t (first_page d s)) (sym e)
        (record {
          aligned = h.aligned;
          bound = h.bound;
          low = h.low;
          at = h.at;
          cell = λ i k.
              h.cell i k
              ∙ ap (λ v. if ltb i (first_pos d) then v else 32)
                  (ap (λ c. (probe d s).memory (c + 2 * i)) found.0 ∙ found.1 (cga_buf + 2 * i));
        })

  -- A character finds the screen as if the probe had been made before it.
  kbmputc-with_screen :
      IsBlkcopy d.blkcopy → (c : ℕ) → c ≢ 0 → kbmputc d c s ≡ kbmputc d c (with_screen d s)
  unfolding kbmputc
  kbmputc-with_screen copies c ne =
      let u = with_screen d s in
      let e = ==_ne c 0 ne in
      let again = started_lem d copies u (first_page d s) with_screen-Shows in
      ap (λ b. if b then some s else finished d (switch d c u)) e
      ∙ ap (λ v. finished d (switch d c v)) (sym again)
      ∙ ap (λ b. if b then some u else finished d (switch d c (with_screen d u))) (sym e)

  -- On a colour display whose memory holds bytes, with a screen that was not written to, `blkcopy`
  -- as the C library says and a cursor that is not at COL * ROW: the output of a text that starts
  -- with a character that is not 0, and has no backspace at the first place, ends, and the screen
  -- shows the text from the cursor's place on, or from the first one if the cursor is not on the
  -- screen, with blanks after that place and the old characters in front of it.
  pub kprintf_chars-Shows :
      IsBlkcopy d.blkcopy
      → (c : ℕ) (cs : List ℕ) → c ≢ 0
      → IsInside (c ∷ cs) (first_page d s)
      → (t : Screen) × (kprintf_chars d (c ∷ cs) s ≡ some t)
        × Shows t (typed_all (c ∷ cs) (first_page d s))
  unfolding kprintf_chars kputc then_rest
  kprintf_chars-Shows copies c cs ne i =
      let out =
        kprintf_chars-Gives d copies (c ∷ cs) (with_screen d s) (first_page d s) with_screen-Shows
          (first_pos-room d) i in
      (out.0, ap (then_rest d c cs) (kbmputc-with_screen copies c ne) ∙ out.1, out.2.shows)
