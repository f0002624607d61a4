-- ===== src/Console/Page.antt =====
-- The screen as its users see it: 25 lines of 80 characters and the place of the next one, and what a
-- character does to them (`typed`), in terms of lines and columns alone.
use xeros_kernel.Base.{
  true, refl, lt→leb, ◌*◌, ◌/◌, ◌%◌, ◌-◌, ◌+◌, ltb, arith, ◌≡◌, ◌==◌, leb, zero, ◌<◌, ◌≤◌, List,
  suc, if◌then◌else◌, ℕ, [], ◌∷◌,
}

pub record Page : Type 0 where
  pub cells : ℕ → ℕ
  pub pos : ℕ

-- From the end of the last line the text moves up by a line.
unfoldable pub scroll_up : Page → Page
scroll_up p =
    if leb 2000 p.pos
    then record { cells = λ i. if ltb i 1920 then p.cells (i + 80) else 32; pos = p.pos - 80 }
    else p

unfoldable pub put_cell : ℕ → Page → Page
put_cell c p =
    scroll_up (record { cells = λ i. if i == p.pos then c else p.cells i; pos = p.pos + 1 })

unfoldable pub put_spaces : ℕ → Page → Page
put_spaces zero p = p
put_spaces (suc n) p = put_spaces n (put_cell 32 p)

-- A tab goes to the next column that 8 divides, a backspace one place back, a newline to the start of
-- the next line and a return to that of the line.
unfoldable pub typed : ℕ → Page → Page
typed c p =
    if c == 0
    then p
    else if c == 9
    then put_spaces (8 - p.pos % 8) p
    else if c == 8
    then record p { pos = p.pos - 1 }
    else if c == 10
    then scroll_up (record p { pos = (p.pos / 80 + 1) * 80 })
    else if c == 13
    then record p { pos = p.pos / 80 * 80 }
    else put_cell c p

unfoldable pub typed_all : List ℕ → Page → Page
typed_all [] p = p
typed_all (c ∷ cs) p = typed_all cs (typed c p)

-- No backspace of the text stands at the first place of the screen.
abbrev pub IsInside : List ℕ → Page → Type 0
IsInside [] p = Unit
IsInside (c ∷ cs) p = (c ≡ 8 → 0 < p.pos) × IsInside cs (typed c p)

pub scroll_up-room : (p : Page) → p.pos ≤ 2000 → (scroll_up p).pos < 2000
unfolding scroll_up
scroll_up-room p h = ground arith

pub scroll_up-inside : (p : Page) → p.pos < 2000 → scroll_up p ≡ p
unfolding scroll_up
scroll_up-inside p h = rw (lt→leb 2000 p.pos h) refl

pub scroll_up-moves :
    (p : Page)
    → leb 2000 p.pos ≡ true
    → scroll_up p
      ≡ (record { cells = λ i. if ltb i 1920 then p.cells (i + 80) else 32; pos = p.pos - 80 })
unfolding scroll_up
scroll_up-moves p e = rw e refl

pub put_cell-room : (c : ℕ) (p : Page) → p.pos < 2000 → (put_cell c p).pos < 2000
unfolding put_cell
put_cell-room c p h = scroll_up-room _ (omega (arith, h))

pub put_cell-column : (c : ℕ) (p : Page) → p.pos < 2000 → (put_cell c p).pos % 8 ≡ (p.pos + 1) % 8
unfolding put_cell scroll_up
put_cell-column c p h = ground arith

pub put_spaces-room : (n : ℕ) (p : Page) → p.pos < 2000 → (put_spaces n p).pos < 2000
unfolding put_spaces
put_spaces-room zero p h = h
put_spaces-room (suc n) p h = put_spaces-room n (put_cell 32 p) (put_cell-room 32 p h)

pub typed-room : (c : ℕ) (p : Page) → p.pos < 2000 → (typed c p).pos < 2000
unfolding typed
typed-room c p h =
    let spaces = put_spaces-room (8 - p.pos % 8) p h in
    let line = scroll_up-room (record p { pos = (p.pos / 80 + 1) * 80 }) (omega (arith, h)) in
    let plain = put_cell-room c p h in ground arith
