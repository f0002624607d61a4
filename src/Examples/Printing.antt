-- ===== src/Examples/Printing.antt =====
-- A colour screen, in use and not yet in use.
use xeros_kernel.Console.{Display, Screen, kprintf_chars, cga_buf, cga_base}
use xeros_kernel.Console.Page.{typed, scroll_up, put_spaces, put_cell, IsInside, Page, typed_all}
use xeros_kernel.Console.Cells.{IsBlkcopy}
use xeros_kernel.Console.Shows.{Shows}
use xeros_kernel.Console.Tab.{Gives}
use xeros_kernel.Console.Refines.{kprintf_chars-Gives}
use xeros_kernel.Console.Started.{kprintf_chars-Shows, first_page}
use xeros_kernel.Console.Before.{backspace_before}
use xeros_kernel.Base.{
  ltb, ◌&&◌, ◌-◌, leb, some, ◌*◌, if◌then◌else◌, ◌≡◌, List, arith, ◌+◌, true, refl, ℕ, [], ◌∷◌,
}

abbrev colour_display : Display
colour_display = record {
  has_colour = true;
  cursor_hi = 7;
  cursor_lo = 128;
  blkcopy = λ m dst src n a. if leb dst a && ltb a (dst + n) then m (src + (a - dst)) else m a;
}

copies_all : IsBlkcopy colour_display.blkcopy
copies_all = λ m dst src n a. refl

-- A screen of dots, with the cursor at a place.
abbrev dots : ℕ → Screen
dots pos = record {
  base = cga_buf;
  addr_6845 = cga_base;
  crtat = cga_buf + 2 * pos;
  memory = λ a. 46;
  outs = [];
}

abbrev dotted : ℕ → Page
dotted pos = record { cells = λ i. 46; pos = pos }

dots-Shows : (pos : ℕ) → Shows (dots pos) (dotted pos)
dots-Shows pos = record {
  aligned = refl;
  bound = omega arith;
  low = omega arith;
  at = refl;
  cell = λ i l. refl;
}

abbrev unused_screen : Screen
unused_screen = record {
  base = cga_buf;
  addr_6845 = cga_base;
  crtat = 0;
  memory = λ a. 46;
  outs = [];
}

-- A letter, a tab, a backspace and a newline near the end of the last line.
abbrev mixed : List ℕ
mixed = 65 ∷ 9 ∷ 8 ∷ 10 ∷ 66 ∷ 13 ∷ []

IsInside-mixed : IsInside mixed (dotted 1990)
unfolding typed put_cell put_spaces scroll_up
IsInside-mixed = (
  λ z. omega (arith, z),
  (
    λ z. omega (arith, z),
    (
      λ z. omega arith,
      (λ z. omega (arith, z), (λ z. omega (arith, z), (λ z. omega (arith, z), tt))),
    ),
  ),
)

IsInside-first : IsInside (65 ∷ 10 ∷ []) (first_page colour_display unused_screen)
IsInside-first = (λ z. omega (arith, z), (λ z. omega (arith, z), tt))

kprintf_chars-Gives_example :
    (t : Screen) × (kprintf_chars colour_display mixed (dots 1990) ≡ some t)
    × Gives (dots 1990) (typed_all mixed (dotted 1990)) t
kprintf_chars-Gives_example =
    kprintf_chars-Gives colour_display copies_all mixed (dots 1990) (dotted 1990) (dots-Shows 1990)
      (omega arith) IsInside-mixed

kprintf_chars-Shows_example :
    (t : Screen) × (kprintf_chars colour_display (65 ∷ 10 ∷ []) unused_screen ≡ some t)
    × Shows t (typed_all (65 ∷ 10 ∷ []) (first_page colour_display unused_screen))
kprintf_chars-Shows_example =
    kprintf_chars-Shows colour_display unused_screen refl refl refl (λ a. omega arith) (omega arith)
      copies_all 65 (10 ∷ []) (omega arith) IsInside-first

backspace_before_example :
    (t : Screen) × (kprintf_chars colour_display (8 ∷ 65 ∷ []) (dots 0) ≡ some t)
    × (t.memory (cga_buf - 2) ≡ 65)
backspace_before_example =
    backspace_before colour_display copies_all (dots 0) (dotted 0) (dots-Shows 0) refl 65
      (omega arith, omega arith, omega arith, omega arith, omega arith)
