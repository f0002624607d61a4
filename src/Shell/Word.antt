-- ===== src/Shell/Word.antt =====
-- What `token` of c/user.c makes of a line that holds one word.
use xeros_kernel.Keyboard.{newline}
use xeros_kernel.Shell.Tokenizer.{
  fresh_tok, buffer_size, token, detach_char, kbd_eof, take_char, tok_enter, is_blank, Text, Tok,
  token_loop,
}
use xeros_kernel.Base.{
  ==_ne, inr, ==_iff, sym, inl, Bool-cases, ◌∙◌, ap, refl, zero, arith, ◌≤◌, ◌==◌, false, suc, ◌||◌,
  ◌<◌, some, true, ◌+◌, ◌≡◌, not, Option, Bool, ℕ,
}

-- No blank, no end of a line and no detach.
abbrev pub is_plain : ℕ → Bool
is_plain c = not (is_blank c || (c == newline) || (c == kbd_eof) || (c == detach_char))

plain_parts :
    (c : ℕ)
    → is_plain c ≡ true
    → (is_blank c ≡ false)
      × ((c == newline) ≡ false)
      × ((c == kbd_eof) ≡ false)
      × ((c == detach_char) ≡ false)
plain_parts c h = (ground (arith, h), ground (arith, h), ground (arith, h), ground (arith, h))

-- The turn for a plain character.
token_loop-plain :
    (n f len : ℕ) (t : Tok)
    → is_plain (t.dup t.ind) ≡ true
    → token_loop (suc n) f len false t ≡ token_loop n f (suc len) false (take_char len t)
unfolding token_loop
token_loop-plain n f len t h =
    let (b, w, e, d) = plain_parts (t.dup t.ind) h in rw (b, w, e, d) refl

token_loop-newline :
    (n f len : ℕ) (t : Tok)
    → t.dup t.ind ≡ newline
    → token_loop (suc n) f len false t ≡ some (len, record t { ind = t.ind + 1; state = tok_enter })
unfolding token_loop
token_loop-newline n f len t h = rw h refl

-- A loop that ends with the first n characters of s, which a newline ends.
pub record IsWord (o : Option (ℕ × Tok)) (s : Text) (n : ℕ) : Type 0 where
  pub tok : Tok
  pub found : o ≡ some (n, tok)
  pub entered : tok.state ≡ tok_enter
  pub attached : tok.detach ≡ false
  pub copied : (i : ℕ) → i < n → tok.str i ≡ s i
  pub ended : (i : ℕ) → n ≤ i → tok.str i ≡ 0

token_loop-IsWord :
    (k m f n len : ℕ) (t : Tok)
    → t.ind ≡ len
    → len + k ≡ n
    → k < m
    → t.detach ≡ false
    → ((i : ℕ) → i < n → is_plain (t.dup i) ≡ true)
    → t.dup n ≡ newline
    → ((i : ℕ) → i < len → t.str i ≡ t.dup i)
    → ((i : ℕ) → len ≤ i → t.str i ≡ 0)
    → IsWord (token_loop m f len false t) t.dup n
token_loop-IsWord k zero f n len t q e lt d ps h cs zs = absurd (omega arith)
token_loop-IsWord zero (suc m) f n len t q e lt d ps h cs zs = record {
  tok = record t { ind = t.ind + 1; state = tok_enter };
  found =
      token_loop-newline m f len t (ap t.dup (omega arith) ∙ h)
      ∙ ap (λ l. some (l, record t { ind = t.ind + 1; state = tok_enter })) (omega arith);
  entered = refl;
  attached = d;
  copied = λ i l. cs i (omega arith);
  ended = λ i l. zs i (omega arith);
}
token_loop-IsWord (suc k) (suc m) f n len t q e lt d ps h cs zs =
    rw (token_loop-plain m f len t (ps t.ind (omega arith))) (
      token_loop-IsWord k m f n (suc len) (take_char len t) (omega arith) (omega arith)
        (omega arith) refl ps h
        (λ i l. elim (Bool-cases (i == len)) [
          | inl b ↦ rw b (ap t.dup (q ∙ sym ((==_iff i len).0 b)))
          | inr b ↦ rw b (cs i (ground (arith, b, l)))
        ])
        (λ i l. rw (==_ne i len (λ b. omega arith)) (zs i (omega arith))))

-- On a line of n characters, n below 128, none of them a blank, a 0, a newline or &, and then a
-- newline, `token` returns n with the state TOK_ENTER and no detach, and `str` holds the n
-- characters and 0 after them.
pub token-IsWord :
    (f n : ℕ) (s : Text) (t : Tok)
    → n < buffer_size
    → ((i : ℕ) → i < n → is_plain (s i) ≡ true)
    → s n ≡ newline
    → IsWord (token f (some s) t) s n
unfolding token
token-IsWord f n s t lt ps h =
    token_loop-IsWord n buffer_size f n 0 (fresh_tok s) refl (omega arith) lt refl ps h
      (λ i l. absurd (omega arith)) (λ _ _. refl)
