-- ===== src/Console/Refines.antt =====
-- `kbmputc` and `kprintf` of c/kprintf.c on a screen in use: they do to the lines and columns what
-- Console/Page says, and write nowhere else.
use xeros_kernel.Console.Shows.{to_line_start-Shows, Keeps-self, Shows}
use xeros_kernel.Console.Page.{
  put_spaces-room, put_spaces, typed, typed-room, scroll_up-inside, IsInside, scroll_up, typed_all,
  Page,
}
use xeros_kernel.Console.Cells.{IsBlkcopy}
use xeros_kernel.Console.{
  put_plain, finished, finish, to_line_start, kputc, kprintf_chars, switch, Screen, kbmputc,
  Display,
}
use mathlib.Core.Option
use xeros_kernel.Console.Tab.{
  tab_loop-Gives, put_char-Gives, finish-Gives, started_lem, Gives-after, Gives,
}
use xeros_kernel.Base.{
  suc, ◌*◌, ◌+◌, ◌%◌, ◌/◌, add32, sub32, ◌-◌, inr, ◌∙◌, ==_iff, arith, refl, sym, ap, inl, subst,
  Bool-cases, false, some, ◌<◌, ◌≤◌, ◌==◌, ◌≡◌, Option, List, ℕ, [], ◌∷◌,
}

-- `kprintf` after the answer of `kbmputc`.
unfoldable pub then_rest : Display → ℕ → List ℕ → Option Screen → Option Screen
unfolding Option.bind
then_rest d c cs o =
    Option.bind {A = ℕ × Screen} (Option.map (λ t. (c, t)) o) (λ r. kprintf_chars d cs r.1)

module _ (d : Display) (copies : IsBlkcopy d.blkcopy) where
  kbmputc_started :
      (c : ℕ) (s : Screen) (p : Page)
      → Shows s p
      → (c == 0) ≡ false
      → kbmputc d c s ≡ finished d (switch d c s)
  unfolding kbmputc
  kbmputc_started c s p h e = rw (e, started_lem d copies s p h) refl

  -- A step of the switch that does not change the memory.
  moves-Gives :
      (s t : Screen) (q : Page)
      → Shows t q
      → t.base ≡ s.base
      → t.memory ≡ s.memory
      → q.pos ≤ 2000
      → Gives s (scroll_up q) (finish d t)
  moves-Gives s t q h b m r =
      Gives-after s t q _ (finish d t)
        (record { shows = h; keeps = record { same = b; outside = λ a o. ap (λ f. f a) m } })
        (finish-Gives d copies t q h r)

  still :
      (s t : Screen) (q : Page)
      → Shows t q
      → t.base ≡ s.base
      → t.memory ≡ s.memory
      → q.pos < 2000
      → Gives s q (finish d t)
  still s t q h b m r =
      subst (λ u. Gives s u (finish d t)) (scroll_up-inside q r)
        (moves-Gives s t q h b m (omega (arith, r)))

  -- What `kbmputc` must give.
  abbrev Types : ℕ → Screen → Page → Type 0
  Types c s p = (t : Screen) × (kbmputc d c s ≡ some t) × Gives s (typed c p) t

  Types-null : (s : Screen) (p : Page) → Shows s p → Types 0 s p
  unfolding kbmputc typed
  Types-null s p h = (s, refl, record { shows = h; keeps = Keeps-self s })

  Types-tab : (s : Screen) (p : Page) → Shows s p → p.pos < 2000 → Types 9 s p
  unfolding switch typed
  Types-tab s p h r =
      let n = 7 - p.pos % 8 in
      let out = tab_loop-Gives d copies n 7 s p (omega arith) h r (omega arith) in
      let q = put_spaces (suc n) p in
      let room = put_spaces-room (suc n) p r in
      (
        finish d out.0,
        kbmputc_started 9 s p h refl ∙ ap (finished d) out.1,
        subst (λ n. Gives s (put_spaces n p) (finish d out.0)) (omega arith)
            (Gives-after s out.0 q q (finish d out.0) out.2
              (still out.0 out.0 q out.2.shows refl refl room)),
      )

  Types-backspace : (s : Screen) (p : Page) → Shows s p → p.pos < 2000 → 0 < p.pos → Types 8 s p
  unfolding switch typed
  Types-backspace s p h r z =
      let t = record s { crtat = sub32 s.crtat 2 } in
      let q = record p { pos = p.pos - 1 } in
      let shown : Shows t q = record {
        aligned = h.aligned;
        bound = h.bound;
        low = h.low;
        at = omega (arith, h.at, h.bound, r, z);
        cell = h.cell;
      } in
      (finish d t, kbmputc_started 8 s p h refl, still s t q shown refl refl (omega (arith, r)))

  Types-newline : (s : Screen) (p : Page) → Shows s p → p.pos < 2000 → Types 10 s p
  unfolding switch typed to_line_start
  Types-newline s p h r =
      let t = record s { crtat = add32 s.crtat 160 } in
      let q = record p { pos = p.pos + 80 } in
      let below : Shows t q = record {
        aligned = h.aligned;
        bound = h.bound;
        low = h.low;
        at = omega (arith, h.at, h.bound, r);
        cell = h.cell;
      } in
      let start = to_line_start-Shows t q below (omega (arith, r)) in
      let e : (p.pos + 80) / 80 * 80 ≡ (p.pos / 80 + 1) * 80 = omega arith in
      (
        finish d (to_line_start t),
        kbmputc_started 10 s p h refl,
        subst (λ n. Gives s (scroll_up (record p { pos = n })) (finish d (to_line_start t))) e
            (moves-Gives s (to_line_start t) _ start refl refl (omega (arith, r))),
      )

  Types-return : (s : Screen) (p : Page) → Shows s p → p.pos < 2000 → Types 13 s p
  unfolding switch typed to_line_start
  Types-return s p h r =
      let q = record p { pos = p.pos / 80 * 80 } in
      let start = to_line_start-Shows s p h (omega (arith, r)) in
      (
        finish d (to_line_start s),
        kbmputc_started 13 s p h refl,
        still s (to_line_start s) q start refl refl (omega (arith, r)),
      )

  Types-plain :
      (c : ℕ) (s : Screen) (p : Page)
      → Shows s p
      → p.pos < 2000
      → (c == 0) ≡ false
      → (c == 9) ≡ false
      → (c == 8) ≡ false
      → (c == 10) ≡ false
      → (c == 13) ≡ false
      → Types c s p
  unfolding switch typed
  Types-plain c s p h r e0 e9 e8 e10 e13 =
      let out = finish d (put_plain c s) in
      let plain : finished d (switch d c s) ≡ some out = rw (e9, e8, e10, e13) refl in
      (
        out,
        kbmputc_started c s p h e0 ∙ plain,
        rw (e0, e9, e8, e10, e13) (put_char-Gives d copies c s p h r),
      )

  pub kbmputc-Gives :
      (c : ℕ) (s : Screen) (p : Page) → Shows s p → p.pos < 2000 → (c ≡ 8 → 0 < p.pos) → Types c s p
  kbmputc-Gives c s p h r back = elim (Bool-cases (c == 0)) [
    | inl e ↦ subst (λ c. Types c s p) (sym ((==_iff c 0).0 e)) (Types-null s p h)
    | inr e0 ↦ elim (Bool-cases (c == 9)) [
      | inl e ↦ subst (λ c. Types c s p) (sym ((==_iff c 9).0 e)) (Types-tab s p h r)
      | inr e9 ↦ elim (Bool-cases (c == 8)) [
        | inl e ↦
            let c8 = (==_iff c 8).0 e in
            subst (λ c. Types c s p) (sym c8) (Types-backspace s p h r (back c8))
        | inr e8 ↦ elim (Bool-cases (c == 10)) [
          | inl e ↦ subst (λ c. Types c s p) (sym ((==_iff c 10).0 e)) (Types-newline s p h r)
          | inr e10 ↦ elim (Bool-cases (c == 13)) [
            | inl e ↦ subst (λ c. Types c s p) (sym ((==_iff c 13).0 e)) (Types-return s p h r)
            | inr e13 ↦ Types-plain c s p h r e0 e9 e8 e10 e13
          ]
        ]
      ]
    ]
  ]

  -- If the memory of the screen holds the characters of a page and the cursor stands at its place
  -- on the screen, `blkcopy` copies as the C library says, and no backspace of the text stands at
  -- the first place, then the output of the text ends, the screen shows the page after each of its
  -- characters (`typed_all`, in lines and columns: tabs, backspaces, newlines, returns and the
  -- scroll), and the memory outside the screen is unchanged.
  pub kprintf_chars-Gives :
      (cs : List ℕ) (s : Screen) (p : Page)
      → Shows s p
      → p.pos < 2000
      → IsInside cs p
      → (t : Screen) × (kprintf_chars d cs s ≡ some t) × Gives s (typed_all cs p) t
  unfolding then_rest kprintf_chars kputc typed_all Option.bind
  kprintf_chars-Gives [] s p h r i = (s, refl, record { shows = h; keeps = Keeps-self s })
  kprintf_chars-Gives (c ∷ cs) s p h r i =
      let one = kbmputc-Gives c s p h r i.0 in
      let rest = kprintf_chars-Gives cs one.0 (typed c p) one.2.shows (typed-room c p r) i.1 in
      (
        rest.0,
        ap (then_rest d c cs) one.1 ∙ rest.1,
        Gives-after s one.0 (typed c p) _ rest.0 one.2 rest.2,
      )
