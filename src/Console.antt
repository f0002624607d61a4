-- ===== src/Console.antt =====
-- c/kprintf.c: the output of the kernel to the memory of the screen, ROW lines of COL characters, each
-- with its colours in the next byte. `crtat` is the address of the cursor, 0 before the first
-- character. The writes to the ports are kept, the last one first. The character that goes to port
-- 0xe9 under IS_DEBUG is left out.
pub mod Page
pub mod Cells
pub mod Shows
pub mod Tab
pub mod Refines
pub mod Started
pub mod Probe
pub mod Before
use xeros_kernel.Keyboard.{Bytes, put_byte, newline}
use mathlib.Core.Option
use xeros_kernel.Base.{
  not, ◌/◌, ◌&&◌, sar, some, srem, ◌-◌, leb, ◌==◌, ◌%◌, zero, none, sub32, Option, sdiv, add32, suc,
  if◌then◌else◌, ◌+◌, List, Bool, ◌*◌, ℕ, [], ◌∷◌,
}

abbrev pub col : ℕ
col = 80

abbrev pub row : ℕ
row = 25

abbrev pub chr : ℕ
chr = 2

abbrev pub mono_base : ℕ
mono_base = 948

abbrev pub mono_buf : ℕ
mono_buf = 720896

abbrev pub cga_base : ℕ
cga_base = 980

abbrev pub cga_buf : ℕ
cga_buf = 753664

abbrev pub att : ℕ
att = 7

abbrev pub screen_size : ℕ
screen_size = col * row * chr

-- The display, and `blkcopy m dst src n` of the C library: whether there is memory at CGA_BUF, and the
-- two bytes of the cursor that its controller holds at first.
pub record Display : Type 0 where
  pub has_colour : Bool
  pub cursor_hi : ℕ
  pub cursor_lo : ℕ
  pub blkcopy : Bytes → ℕ → ℕ → ℕ → Bytes

-- `base` is the global Crtat.
pub record Screen : Type 0 where
  pub base : ℕ
  pub addr_6845 : ℕ
  pub crtat : ℕ
  pub memory : Bytes
  pub outs : List (ℕ × ℕ)

-- `cursor`.
unfoldable pub cursor : ℕ → Screen → Screen
cursor pos s = record s {
  outs =
      (s.addr_6845 + 1, pos % 256)
      ∷ (s.addr_6845, 15)
      ∷ (s.addr_6845 + 1, sar pos 8 % 256)
      ∷ (s.addr_6845, 14)
      ∷ s.outs;
}

-- A short at an address; a store to the memory of a colour display that is not there is lost.
abbrev pub short_at : Bytes → ℕ → ℕ
short_at m a = m a + 256 * m (a + 1)

abbrev pub put_short : Bytes → ℕ → ℕ → Bytes
put_short m a w = put_byte (put_byte m a (w % 256)) (a + 1) (w / 256)

unfoldable pub store_short : Display → Bytes → ℕ → ℕ → Bytes
store_short d m a w = if (a == cga_buf) && not d.has_colour then m else put_short m a w

-- The probe: the display is a colour one if its memory holds what was stored.
unfoldable pub probe : Display → Screen → Screen
probe d s =
    let was = short_at s.memory s.base in
    let m = store_short d s.memory s.base 42330 in
    if short_at m s.base == 42330
    then record s { memory = store_short d m s.base was }
    else record s { base = mono_buf; addr_6845 = mono_base; memory = store_short d m mono_buf was }

-- The cursor that the controller holds, after the writes that ask for it.
unfoldable pub find_cursor : Display → Screen → Screen
find_cursor d s =
    let cursorat = d.cursor_hi * 256 + d.cursor_lo in
    record s {
      crtat = if leb cursorat (col * row) then s.base + cursorat * chr else s.base;
      outs = (s.addr_6845, 15) ∷ (s.addr_6845, 14) ∷ s.outs;
    }

-- Blanks in n characters from `cp` on, with colours and without.
unfoldable pub clean : ℕ → ℕ → Bytes → Bytes
clean zero cp m = m
clean (suc n) cp m = clean n (cp + 2) (put_byte (put_byte m cp 32) (cp + 1) att)

unfoldable pub clear_line : ℕ → ℕ → Bytes → Bytes
clear_line zero cp m = m
clear_line (suc n) cp m = clear_line n (cp + 2) (put_byte m cp 32)

unfoldable pub clean_display : Screen → Screen
clean_display s = record s {
  memory = clean ((s.base + screen_size - s.crtat) / chr) s.crtat s.memory;
}

-- What the first character does before it is written.
unfoldable pub with_screen : Display → Screen → Screen
with_screen d s = if s.crtat == 0 then clean_display (find_cursor d (probe d s)) else s

-- The default case of the switch.
unfoldable pub put_plain : ℕ → Screen → Screen
put_plain c s = record s {
  memory = put_byte (put_byte s.memory s.crtat c) (add32 s.crtat 1) att;
  crtat = add32 s.crtat chr;
}

-- The text moves up by a line, and the last line is blank.
unfoldable pub move_up : Display → Screen → Screen
move_up d s =
    let last = col * (row - 1) * chr in
    record s {
      memory = clear_line col (s.base + last) (d.blkcopy s.memory s.base (s.base + col * chr) last);
      crtat = sub32 s.crtat (col * chr);
    }

-- The scroll.
unfoldable pub scroll : Display → Screen → Screen
scroll d s = if leb (s.base + screen_size) s.crtat then move_up d s else s

-- What `kbmputc` does after the switch.
unfoldable pub finish : Display → Screen → Screen
finish d s = let t = scroll d s in cursor (sdiv (sub32 t.crtat t.base) chr) t

abbrev pub finished : Display → Option Screen → Option Screen
finished d none = none
finished d (some t) = some (finish d t)

-- `kbmputc(' ')`.
unfoldable pub put_space : Display → Screen → Screen
put_space d s = finish d (put_plain 32 (with_screen d s))

-- The loop of a tab.
unfoldable pub tab_loop : ℕ → Display → Screen → Option Screen
tab_loop zero d s = none
tab_loop (suc f) d s =
    let t = put_space d s in
    let rest = tab_loop f d t in if t.crtat % (8 * chr) == 0 then some t else rest

-- A return to the start of the line.
unfoldable pub to_line_start : Screen → Screen
to_line_start s = record s { crtat = sub32 s.crtat (srem (sub32 s.crtat s.base) (col * chr)) }

-- The switch; a tab takes eight steps at most.
unfoldable pub switch : Display → ℕ → Screen → Option Screen
switch d c s =
    if c == 9
    then tab_loop 8 d s
    else if c == 8
    then some (record s { crtat = sub32 s.crtat chr })
    else if c == newline
    then some (to_line_start (record s { crtat = add32 s.crtat (col * chr) }))
    else if c == 13
    then some (to_line_start s)
    else some (put_plain c s)

-- `kbmputc`.
unfoldable pub kbmputc : Display → ℕ → Screen → Option Screen
kbmputc d c s =
    let out = finished d (switch d c (with_screen d s)) in if c == 0 then some s else out

-- `kputc`; it returns the character, which is a byte.
unfoldable pub kputc : Display → ℕ → Screen → Option (ℕ × Screen)
kputc d c s = Option.map (λ t. (c, t)) (kbmputc d c s)

-- `kprintf`, of the characters that `_doprnt` hands to kputc.
unfoldable pub kprintf_chars : Display → List ℕ → Screen → Option Screen
kprintf_chars d [] s = some s
kprintf_chars d (c ∷ cs) s = Option.bind (kputc d c s) (λ r. kprintf_chars d cs r.1)
