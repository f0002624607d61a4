-- ===== src/Shell/Ends.antt =====
-- That `token` of c/user.c ends, and stays in its buffer.
use mathlib.Core.Bool.{and-false}
use xeros_kernel.Keyboard.{newline}
use xeros_kernel.Shell.Tokenizer.{
  is_line_end, is_normal, fresh_tok, buffer_size, token, token_loop, take_char, detach_char,
  tok_eof, kbd_eof, tok_enter, is_blank, after_blanks, Tok, Text, skip_blanks,
}
use xeros_kernel.Base.{
  none, sym, subst, ◌∙◌, true, ==_iff, ap, false, ◌==◌, refl, zero, inr, inl, Bool-cases, arith,
  ◌+◌, suc, ◌<◌, ◌≤◌, some, ◌≡◌, Bool, Option, ℕ,
}

skip_blanks-ends :
    (f i e : ℕ) (s : Text)
    → is_line_end (s e) ≡ true
    → i ≤ e
    → e < i + f
    → (j : ℕ) × (skip_blanks f i s ≡ some j) × (j ≤ e)
unfolding skip_blanks
skip_blanks-ends zero i e s h le lt = absurd (omega arith)
skip_blanks-ends (suc f) i e s h le lt = elim (Bool-cases (is_blank (s i))) [
  | inl b ↦
      let (j, g, k) = skip_blanks-ends f (suc i) e s h (ground (arith, h, b, le)) (omega arith) in
      (j, rw b g, k)
  | inr b ↦ (i, rw b refl, le)
]

-- The tokenizer ends with a token of at most `limit` characters, and has written no place of `str`
-- from `limit` on.
record IsEnded (o : Option (ℕ × Tok)) (e limit : ℕ) (dup str : Text) : Type 0 where
  len : ℕ
  tok : Tok
  ends : o ≡ some (len, tok)
  short : len ≤ limit
  kept : (i : ℕ) → limit ≤ i → tok.str i ≡ str i
  same : tok.dup ≡ dup
  inside : is_normal tok.state ≡ true → tok.ind ≤ e

neither : (c : ℕ) → (c == newline) ≡ false → (c == kbd_eof) ≡ false → is_line_end c ≡ false
neither c p q = rw (p, q) refl

blank_inside : (c : ℕ) → is_blank c ≡ true → is_line_end c ≡ false
blank_inside c b = ground (arith, b)

-- A place before the end of the line that does not end it has a next one in the line.
before_end :
    (s : Text) (i e : ℕ) → is_line_end (s e) ≡ true → is_line_end (s i) ≡ false → i ≤ e → i + 1 ≤ e
before_end s i e h ne le = elim (Bool-cases (i == e)) [
  | inl q ↦ absurd (ground (arith, ap s ((==_iff i e).0 q), h, ne))
  | inr q ↦ ground (arith, q, le)
]

after_blanks-IsEnded :
    (len n e : ℕ) (space : Bool) (t : Tok) (rest : ℕ → Tok → Option (ℕ × Tok))
    → is_line_end (t.dup e) ≡ true
    → t.ind ≤ e
    → ((l : ℕ) (u : Tok)
        → l ≤ suc len
        → u.ind ≤ e
        → (u.dup ≡ t.dup)
        → ((i : ℕ) → len + suc n ≤ i → u.str i ≡ t.str i)
        → IsEnded (rest l u) e (len + suc n) t.dup t.str)
    → IsEnded (after_blanks len space t rest) e (len + suc n) t.dup t.str
after_blanks-IsEnded len n e space t rest h le next = elim (Bool-cases (t.dup t.ind == newline)) [
  | inl b ↦
      rw b
        (done (record t { ind = t.ind + 1; state = tok_enter }) refl refl (λ q. ground (arith, q)))
  | inr b ↦ elim (Bool-cases (t.dup t.ind == kbd_eof)) [
    | inl c ↦ rw b (
        rw c
          (done (record t { ind = t.ind + 1; state = tok_eof }) refl refl (λ q. ground (arith, q))))
    | inr c ↦
        let more = before_end t.dup t.ind e h (neither (t.dup t.ind) b c) le in
        elim (Bool-cases (t.dup t.ind == detach_char)) [
          | inl a ↦
              rw (b, c, a, and-false space)
                (next len (record t { ind = t.ind + 1; detach = true }) (omega arith) more refl
                  (λ _ _. refl))
          | inr a ↦ elim (Bool-cases space) [
            | inl p ↦ rw (b, c, a, p) (done t refl refl (λ _. le))
            | inr p ↦
                rw (b, c, a, p)
                  (next (suc len) (take_char len t) (omega arith) more refl
                    (λ i l. ground (arith, l)))
          ]
        ]
  ]
]
  where
    done :
        (u : Tok)
        → (u.dup ≡ t.dup)
        → (u.str ≡ t.str)
        → (is_normal u.state ≡ true → u.ind ≤ e)
        → IsEnded (some (len, u)) e (len + suc n) t.dup t.str
    done u d k l = record {
      len = len;
      tok = u;
      ends = refl;
      short = omega arith;
      kept = λ i _. ap (λ g. g i) k;
      same = d;
      inside = l;
    }

IsEnded-weaken :
    (o : Option (ℕ × Tok)) (e a b : ℕ) (dup dup' str str' : Text)
    → a ≤ b
    → dup ≡ dup'
    → ((i : ℕ) → b ≤ i → str i ≡ str' i)
    → IsEnded o e a dup str
    → IsEnded o e b dup' str'
IsEnded-weaken o e a b dup dup' str str' le d k w = record {
  len = w.len;
  tok = w.tok;
  ends = w.ends;
  short = ground (arith, w.short, le);
  kept = λ i l. w.kept i (ground (arith, l, le)) ∙ k i l;
  same = w.same ∙ d;
  inside = w.inside;
}

-- What `rest` must do, from what the loop does in its last n turns.
later_turns :
    (n f e len : ℕ) (t : Tok)
    → is_line_end (t.dup e) ≡ true
    → ((l : ℕ) (sp : Bool) (u : Tok)
        → is_line_end (u.dup e) ≡ true
        → u.ind ≤ e
        → IsEnded (token_loop n f l sp u) e (l + n) u.dup u.str)
    → (sp : Bool) (l : ℕ) (u : Tok) → l ≤ suc len
    → u.ind ≤ e
    → (u.dup ≡ t.dup)
    → ((i : ℕ) → len + suc n ≤ i → u.str i ≡ t.str i)
    → IsEnded (token_loop n f l sp u) e (len + suc n) t.dup t.str
later_turns n f e len t h ih sp l u ll lu du ku =
    IsEnded-weaken (token_loop n f l sp u) e (l + n) (len + suc n) u.dup t.dup u.str t.str
      (omega arith) du ku (ih l sp u (subst (λ d. is_line_end (d e) ≡ true) (sym du) h) lu)

token_loop-IsEnded :
    (n f e len : ℕ) (space : Bool) (t : Tok)
    → is_line_end (t.dup e) ≡ true
    → t.ind ≤ e
    → e < f
    → IsEnded (token_loop n f len space t) e (len + n) t.dup t.str
unfolding token_loop
token_loop-IsEnded zero f e len space t h le lt = record {
  len = len;
  tok = t;
  ends = refl;
  short = omega arith;
  kept = λ _ _. refl;
  same = refl;
  inside = λ _. le;
}
token_loop-IsEnded (suc n) f e len space t h le lt = elim (Bool-cases (is_blank (t.dup t.ind))) [
  | inl b ↦
      let (j, g, k) =
        skip_blanks-ends f (t.ind + 1) e t.dup h
          (before_end t.dup t.ind e h (blank_inside (t.dup t.ind) b) le) (omega arith) in
      rw b (
        rw g (
          after_blanks-IsEnded len n e true (record t { ind = j }) (λ l u. token_loop n f l true u)
            h k
            (later_turns n f e len t h (λ l sp u hu lu. token_loop-IsEnded n f e l sp u hu lu lt)
              true)))
  | inr b ↦ rw b (
      after_blanks-IsEnded len n e space t (λ l u. token_loop n f l space u) h le
        (later_turns n f e len t h (λ l sp u hu lu. token_loop-IsEnded n f e l sp u hu lu lt)
          space))
]

-- If the line has a newline or a 0 at place e, then with fuel above e `token` ends on the line
-- with at most 128 characters and writes none from place 128 of `str` on.
pub token-ends :
    (f e : ℕ) (s : Text) (t : Tok)
    → is_line_end (s e) ≡ true
    → e < f
    → (len : ℕ) × (tok : Tok) × (token f (some s) t ≡ some (len, tok))
      × (len ≤ buffer_size)
      × ((i : ℕ) → buffer_size ≤ i → tok.str i ≡ 0)
unfolding token
token-ends f e s t h lt =
    let w = token_loop-IsEnded buffer_size f e 0 false (fresh_tok s) h (omega arith) lt in
    (w.len, w.tok, w.ends, w.short, w.kept)

-- The next token of a line, from inside it or after its end.
pub next_token-ends :
    (f e : ℕ) (t : Tok)
    → is_line_end (t.dup e) ≡ true
    → e < f
    → (is_normal t.state ≡ true → t.ind ≤ e)
    → (len : ℕ) × (tok : Tok) × (token f none t ≡ some (len, tok))
unfolding token
next_token-ends f e t h lt le = elim (Bool-cases (is_normal t.state)) [
  | inl b ↦
      let w = token_loop-IsEnded buffer_size f e 0 false (record t { str = λ _. 0 }) h (le b) lt in
      (w.len, w.tok, rw b w.ends)
  | inr b ↦ (0, record t { str = λ _. 0 }, rw b refl)
]

-- The first token of a line, and where it leaves the tokenizer.
pub first_token-ends :
    (f e : ℕ) (s : Text) (t : Tok)
    → is_line_end (s e) ≡ true
    → e < f
    → (len : ℕ) × (tok : Tok) × (token f (some s) t ≡ some (len, tok))
      × (is_line_end (tok.dup e) ≡ true)
      × (is_normal tok.state ≡ true → tok.ind ≤ e)
unfolding token
first_token-ends f e s t h lt =
    let w = token_loop-IsEnded buffer_size f e 0 false (fresh_tok s) h (omega arith) lt in
    (w.len, w.tok, w.ends, subst (λ d. is_line_end (d e) ≡ true) (sym w.same) h, w.inside)
