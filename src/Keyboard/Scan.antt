-- ===== src/Keyboard/Scan.antt =====
-- The translation of scan codes of c/kbd.c. The state of the modifier keys is a word of flags:
-- bit 0 control, bit 1 shift, bit 2 caps lock, bit 3 meta, bit 4 an extended code.
use xeros_kernel.Base.{
  ◌+◌, ◌&&◌, bit_on, length, ◌%◌, ltb, leb, get_or, ◌||◌, bit_set, ◌==◌, if◌then◌else◌, bit_off,
  List, ℕ, [], ◌∷◌,
}

abbrev pub inctl : ℕ
inctl = 0

abbrev pub inshift : ℕ
inshift = 1

abbrev pub capslock : ℕ
capslock = 2

abbrev pub inmeta : ℕ
inmeta = 3

abbrev pub extended : ℕ
extended = 4

abbrev pub nochar : ℕ
nochar = 256

abbrev pub kbcode : List ℕ
kbcode =
    0 ∷ 27 ∷ 49 ∷ 50 ∷ 51 ∷ 52 ∷ 53 ∷ 54 ∷ 55 ∷ 56 ∷ 57 ∷ 48 ∷ 45 ∷ 61 ∷ 8 ∷ 9 ∷ 113 ∷ 119 ∷ 101
    ∷ 114 ∷ 116 ∷ 121 ∷ 117 ∷ 105 ∷ 111 ∷ 112 ∷ 91 ∷ 93 ∷ 10 ∷ 0 ∷ 97 ∷ 115 ∷ 100 ∷ 102 ∷ 103 ∷ 104
    ∷ 106 ∷ 107 ∷ 108 ∷ 59 ∷ 39 ∷ 96 ∷ 0 ∷ 92 ∷ 122 ∷ 120 ∷ 99 ∷ 118 ∷ 98 ∷ 110 ∷ 109 ∷ 44 ∷ 46 ∷ 47
    ∷ 0 ∷ 0 ∷ 0 ∷ 32 ∷ []

abbrev pub kbshift : List ℕ
kbshift =
    0 ∷ 0 ∷ 33 ∷ 64 ∷ 35 ∷ 36 ∷ 37 ∷ 94 ∷ 38 ∷ 42 ∷ 40 ∷ 41 ∷ 95 ∷ 43 ∷ 8 ∷ 9 ∷ 81 ∷ 87 ∷ 69 ∷ 82
    ∷ 84 ∷ 89 ∷ 85 ∷ 73 ∷ 79 ∷ 80 ∷ 123 ∷ 125 ∷ 10 ∷ 0 ∷ 65 ∷ 83 ∷ 68 ∷ 70 ∷ 71 ∷ 72 ∷ 74 ∷ 75 ∷ 76
    ∷ 58 ∷ 34 ∷ 126 ∷ 0 ∷ 124 ∷ 90 ∷ 88 ∷ 67 ∷ 86 ∷ 66 ∷ 78 ∷ 77 ∷ 60 ∷ 62 ∷ 63 ∷ 0 ∷ 0 ∷ 0 ∷ 32
    ∷ []

abbrev pub kbctl : List ℕ
kbctl =
    0 ∷ 0 ∷ 0 ∷ 0 ∷ 0 ∷ 0 ∷ 0 ∷ 0 ∷ 0 ∷ 0 ∷ 0 ∷ 0 ∷ 31 ∷ 0 ∷ 8 ∷ 9 ∷ 17 ∷ 23 ∷ 5 ∷ 18 ∷ 20 ∷ 25 ∷ 21
    ∷ 9 ∷ 15 ∷ 16 ∷ 27 ∷ 29 ∷ 10 ∷ 0 ∷ 1 ∷ 19 ∷ 4 ∷ 6 ∷ 7 ∷ 8 ∷ 10 ∷ 11 ∷ 12 ∷ 0 ∷ 0 ∷ 0 ∷ 0 ∷ 28
    ∷ 26 ∷ 24 ∷ 3 ∷ 22 ∷ 2 ∷ 14 ∷ 13 ∷ []

-- `extchar`: what it returns as a character is the word of flags.
abbrev pub extchar : ℕ → ℕ × ℕ
extchar s = (bit_off s extended, bit_off s extended)

-- The keys that change the state.
pub data Modifier : Type 0 where
  flag : ℕ → Modifier
  escape other_key : Modifier

-- LSHIFT, RSHIFT, LMETA, LCTL, CAPSL and EXTESC.
abbrev pub modifier : ℕ → Modifier
modifier code =
    if (code == 42) || (code == 54)
    then flag inshift
    else if code == 58
    then flag capslock
    else if code == 29
    then flag inctl
    else if code == 56
    then flag inmeta
    else if code == 224
    then escape
    else other_key

-- `kbtoa` for a key that is released, without the bit KEY_UP.
unfoldable pub key_up : ℕ → ℕ → ℕ
key_up code s = elim (modifier code) as (λ _. ℕ) [
  | flag i ↦ bit_off s i
  | escape ↦ s
  | other_key ↦ s
]

-- `kbtoa` for a key that is none of the modifiers.
unfoldable pub translate : ℕ → ℕ → ℕ
translate code s =
    let plain = if bit_set s capslock then get_or kbshift code 0 else get_or kbcode code 0 in
    let shifted = if bit_set s capslock then get_or kbcode code 0 else get_or kbshift code 0 in
    let first = if ltb code (length kbcode) then plain else nochar in
    let second = if bit_set s inshift then shifted else first in
    let third = if bit_set s inctl then get_or kbctl code 0 else second in
    if bit_set s inshift && leb (length kbshift) code
    then nochar
    else if bit_set s inctl && leb (length kbctl) code
    then nochar
    else if bit_set s inmeta
    then third + 128
    else third

-- `kbtoa`: the character, and the state of the modifier keys.
unfoldable pub kbtoa : ℕ → ℕ → ℕ × ℕ
kbtoa code s =
    if bit_set s extended
    then extchar s
    else if leb 128 code
    then (nochar, key_up (code % 128) s)
    else elim (modifier code) [
      | flag i ↦ (nochar, bit_on s i)
      | escape ↦ (nochar, bit_on s extended)
      | other_key ↦ (translate code s, s)
    ]
