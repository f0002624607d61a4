-- ===== src/Console/Tab.antt =====
-- A character of c/kprintf.c on a screen in use with the scroll that follows it, and the loop of a tab.
use xeros_kernel.Console.Shows.{
  scroll-Keeps, put_plain-Keeps, scroll-Shows, put_plain-Shows, Keeps, Keeps-trans, Shows,
}
use xeros_kernel.Console.Cells.{IsBlkcopy}
use xeros_kernel.Console.Page.{
  put_cell-room, put_cell-column, scroll_up, put_spaces, put_cell, Page,
}
use xeros_kernel.Console.{
  put_plain, cursor, finish, with_screen, tab_loop, put_space, Display, Screen,
}
use xeros_kernel.Base.{
  ◌≢◌, ◌∙◌, false, ◌==◌, if◌then◌else◌, ap, ◌*◌, zero, some, suc, refl, ◌+◌, arith, ◌%◌, ==_ne, ◌≤◌,
  ◌≡◌, ◌<◌, ℕ,
}

-- What a step from `s` must give: a screen that shows `q`, the memory outside as it was.
pub record Gives (s : Screen) (q : Page) (t : Screen) : Type 0 where
  pub shows : Shows t q
  pub keeps : Keeps s t

pub Gives-after : (s t : Screen) (p q : Page) (u : Screen) → Gives s p t → Gives t q u → Gives s q u
Gives-after s t p q u g k = record { shows = k.shows; keeps = Keeps-trans s t u g.keeps k.keeps }

pub used-with_screen : (d : Display) (s : Screen) → s.crtat ≢ 0 → with_screen d s ≡ s
unfolding with_screen
used-with_screen d s ne = rw (==_ne s.crtat 0 ne) refl

module _ (d : Display) (copies : IsBlkcopy d.blkcopy) (s : Screen) (p : Page) (h : Shows s p) where
  pub started_lem : with_screen d s ≡ s
  started_lem = used-with_screen d s (λ z. omega (arith, z, h.at, h.low))

  pub finish-Gives : p.pos ≤ 2000 → Gives s (scroll_up p) (finish d s)
  unfolding finish cursor
  finish-Gives r =
      let t = scroll-Shows s p h d copies r in
      let k = scroll-Keeps s p h d copies r in
      record {
        shows = record {
          aligned = t.aligned;
          bound = t.bound;
          low = t.low;
          at = t.at;
          cell = t.cell;
        };
        keeps = record { same = k.same; outside = k.outside };
      }

at_column : (t : Screen) (q : Page) → Shows t q → t.crtat % 16 ≡ 2 * (q.pos % 8)
at_column t q h = omega (arith, h.aligned, h.at)

module _ (d : Display) (copies : IsBlkcopy d.blkcopy) where
  pub put_char-Gives :
      (c : ℕ) (s : Screen) (p : Page)
      → Shows s p
      → p.pos < 2000
      → Gives s (put_cell c p) (finish d (put_plain c s))
  unfolding put_cell
  put_char-Gives c s p h r =
      let t = put_plain-Shows s p h c r in
      let k = put_plain-Keeps s p h c r in
      Gives-after s (put_plain c s) _ _ _ (record { shows = t; keeps = k })
        (finish-Gives d copies (put_plain c s) _ t (omega (arith, r)))

  put_space-Gives :
      (s : Screen) (p : Page) → Shows s p → p.pos < 2000 → Gives s (put_cell 32 p) (put_space d s)
  unfolding put_space
  put_space-Gives s p h r = rw (started_lem d copies s p h) (put_char-Gives 32 s p h r)

  pub tab_loop-Gives :
      (n f : ℕ) (s : Screen) (p : Page)
      → n ≤ f
      → Shows s p
      → p.pos < 2000
      → p.pos % 8 + suc n ≡ 8
      → (t : Screen) × (tab_loop (suc f) d s ≡ some t) × Gives s (put_spaces (suc n) p) t
  unfolding tab_loop put_spaces
  tab_loop-Gives zero f s p l h r e =
      let t = put_space d s in
      let g = put_space-Gives s p h r in
      let z : t.crtat % 16 ≡ 0 =
        omega (arith, at_column t (put_cell 32 p) g.shows, put_cell-column 32 p r, e) in
      (t, ap (λ w. if w == 0 then some t else tab_loop f d t) z, g)
  tab_loop-Gives (suc n) zero s p l h r e = absurd (omega (arith, l))
  tab_loop-Gives (suc n) (suc f) s p l h r e =
      let t = put_space d s in
      let q = put_cell 32 p in
      let g = put_space-Gives s p h r in
      let k = put_cell-column 32 p r in
      let z : (t.crtat % 16 == 0) ≡ false =
        ==_ne (t.crtat % 16) 0 (λ z. omega (arith, z, at_column t q g.shows, k, e)) in
      let rest =
        tab_loop-Gives n f t q (omega (arith, l)) g.shows (put_cell-room 32 p r)
          (omega (arith, k, e)) in
      (
        rest.0,
        ap (λ b. if b then some t else tab_loop (suc f) d t) z ∙ rest.1,
        Gives-after s t q _ rest.0 g rest.2,
      )
