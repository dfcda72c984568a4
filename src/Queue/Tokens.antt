-- ===== src/Queue/Tokens.antt =====
-- What the cut of a message into tokens leaves: read back, the tokens are the words of the message.
use multithreaded_chat_appli.Base.{
  All, List, Text, [], ap, append_assoc, ap₂, arith, drop-append, get_or-append_add, length,
  length-append, map, none, refl, replicate, some, suc, sym, take, take-nil, zero, ℕ, ◌++◌, ◌+◌,
  ◌∙◌, ◌∷◌, ◌≡◌,
}
use mathlib.Core.Path.{subst}
use multithreaded_chat_appli.CString.{space, spaces_at, Strtok, strtok}
use multithreaded_chat_appli.CString.Words.{
  IsPlain, Shape, blank, last, more, shape, words, words-more, words-last, words-blank,
  words-spaces,
}
use multithreaded_chat_appli.CString.Memory.{strtok-none}
use multithreaded_chat_appli.Queue.{take_tokens}
use multithreaded_chat_appli.Queue.WordAt.{
  get_or-start, start_eq, read, before, start, stop, find_last, find_more, read-start,
}

-- The loop from a call of `strtok` on.
abbrev pub tokens_from : ℕ → List ℕ → ℕ → List ℕ × List ℕ
tokens_from room mem saved =
    let first = strtok mem saved in take_tokens room first.0 first.1 first.2

-- The offsets in `out` read as the first words of `t`, and the memory before them is untouched.
abbrev pub Cut : ℕ → List ℕ → Text → List ℕ × List ℕ → Type 0
Cut room pre t out =
    (m : List ℕ) × (out.1 ≡ pre ++ m) × (map (read out.1) out.0 ≡ take room (words t))

module _ (room : ℕ) (pre : List ℕ) (k : ℕ) (rest : List ℕ) where
  Cut-blank :
      Cut room pre
        (replicate k space)
        (tokens_from room (pre ++ (replicate k space ++ (0 ∷ rest))) (length pre))
  unfolding take_tokens spaces_at
  Cut-blank =
      let mem = before pre k [] (0 ∷ rest) in
      rw
        (strtok-none mem (length pre) (start pre k) (start_eq pre k [] (0 ∷ rest) refl)
          (get_or-start pre k [] (0 ∷ rest)))
        (replicate k space ++ (0 ∷ rest), refl, rw words-blank (sym (take-nil room)))

-- One round of the loop, by what `strtok` finds.
module _ (room : ℕ) (mem : List ℕ) (saved : ℕ) {m : List ℕ} {at : ℕ} where
  tokens_stop : strtok mem saved ≡ (none, m, at) → tokens_from room mem saved ≡ ([], m)
  unfolding take_tokens
  tokens_stop e = ap (λ (x : Strtok). take_tokens room x.0 x.1 x.2) e

module _ (mem : List ℕ) (saved : ℕ) {m : List ℕ} {token at : ℕ} where
  tokens_full : strtok mem saved ≡ (some token, m, at) → tokens_from 0 mem saved ≡ ([], m)
  unfolding take_tokens
  tokens_full e = ap (λ (x : Strtok). take_tokens 0 x.0 x.1 x.2) e

module _ (room : ℕ) (mem : List ℕ) (saved : ℕ) {m : List ℕ} {token at : ℕ} where
  tokens_step :
      strtok mem saved ≡ (some token, m, at)
      → tokens_from (suc room) mem saved
        ≡ (token ∷ (tokens_from room m at).0, (tokens_from room m at).1)
  unfolding take_tokens
  tokens_step e = ap (λ (x : Strtok). take_tokens (suc room) x.0 x.1 x.2) e

-- Behind the last word there is nothing to find.
strtok-end :
    (m : List ℕ) (rest : List ℕ)
    → strtok (m ++ (0 ∷ rest)) (length m) ≡ (none, m ++ (0 ∷ rest), length m + 0)
unfolding spaces_at
strtok-end m rest =
    strtok-none (m ++ (0 ∷ rest)) (length m) (length m + 0) (rw drop-append refl)
      (rw get_or-append_add)

module _ (pre : List ℕ) (k c : ℕ) (w : List ℕ) (plain : All IsPlain (c ∷ w)) (rest : List ℕ) where
  abbrev pub upto : List ℕ
  upto = pre ++ (replicate k space ++ (c ∷ w))

  upto_eq : (r : List ℕ) → before pre k (c ∷ w) r ≡ upto ++ r
  upto_eq r = simp append_assoc

  length-upto : stop pre k (c ∷ w) ≡ length upto
  length-upto = simp length-append (omega arith)

  last_tokens :
      (room : ℕ)
      → tokens_from (suc room) (before pre k (c ∷ w) (0 ∷ rest)) (length pre)
        ≡ (start pre k ∷ [], before pre k (c ∷ w) (0 ∷ rest))
  last_tokens room =
      tokens_step room _ _ (find_last pre k c w plain rest) ∙ rw (tokens_stop room _ _ at_end)
    where
      at_end :
          strtok (before pre k (c ∷ w) (0 ∷ rest)) (stop pre k (c ∷ w))
          ≡ (none, before pre k (c ∷ w) (0 ∷ rest), length upto + 0)
      at_end = rw (upto_eq (0 ∷ rest), length-upto) (strtok-end upto rest)

  Cut-last :
      (room : ℕ)
      → Cut room pre
          (replicate k space ++ (c ∷ w))
          (tokens_from room (before pre k (c ∷ w) (0 ∷ rest)) (length pre))
  Cut-last zero = rw (tokens_full _ _ (find_last pre k c w plain rest)) (_, refl, refl)
  Cut-last (suc room) =
      rw (last_tokens room)
        (_, refl, ap₂ ◌∷◌ (read-start pre k c w plain rest) (sym (take-nil room)) ∙ rw word_last)
    where
      word_last : words (replicate k space ++ (c ∷ w)) ≡ (c ∷ w) ∷ []
      word_last = words-spaces k (c ∷ w) ∙ words-last c w plain

  -- After a word and a space the loop goes on behind both.
  Cut-full :
      (t : Text)
      → Cut 0 pre
          (replicate k space ++ ((c ∷ w) ++ (space ∷ t)))
          (tokens_from 0 (before pre k (c ∷ w) (space ∷ rest)) (length pre))
  Cut-full t = rw (tokens_full _ _ (find_more pre k c w plain rest)) (_, refl, refl)

  abbrev pub behind : List ℕ
  behind = upto ++ (0 ∷ [])

  behind_eq : (r : List ℕ) → behind ++ r ≡ before pre k (c ∷ w) (0 ∷ r)
  behind_eq r = simp append_assoc

  tokens_behind :
      (room : ℕ)
      → tokens_from room (before pre k (c ∷ w) (0 ∷ rest)) (stop pre k (c ∷ w) + 1)
        ≡ tokens_from room (behind ++ rest) (length behind)
  tokens_behind room =
      ap₂ (tokens_from room) (sym (behind_eq rest))
        (rw (length-append upto (0 ∷ [])) (omega (arith, length-upto)))

  Cut-more :
      (room : ℕ) (t : Text) (out : List ℕ × List ℕ)
      → tokens_from room (behind ++ rest) (length behind) ≡ out
      → Cut room behind t out
      → Cut
          (suc room)
          pre
          (replicate k space ++ ((c ∷ w) ++ (space ∷ t)))
          (tokens_from (suc room) (before pre k (c ∷ w) (space ∷ rest)) (length pre))
  Cut-more room t out e (m, kept, reads) =
      subst (Cut (suc room) pre (replicate k space ++ ((c ∷ w) ++ (space ∷ t)))) (sym whole)
        (replicate k space ++ ((c ∷ w) ++ (0 ∷ m)), memory, rw word_more (ap₂ ◌∷◌ first reads))
    where
      whole :
          tokens_from (suc room) (before pre k (c ∷ w) (space ∷ rest)) (length pre)
          ≡ (start pre k ∷ out.0, out.1)
      whole =
          tokens_step room _ _ (find_more pre k c w plain rest)
          ∙ ap (λ (o : List ℕ × List ℕ). let x : List ℕ × List ℕ = (start pre k ∷ o.0, o.1) in x)
              (tokens_behind room ∙ e)

      memory : out.1 ≡ before pre k (c ∷ w) (0 ∷ m)
      memory = kept ∙ behind_eq m

      first : read out.1 (start pre k) ≡ c ∷ w
      first = ap (λ (x : List ℕ). read x (start pre k)) memory ∙ read-start pre k c w plain m

      word_more : words (replicate k space ++ ((c ∷ w) ++ (space ∷ t))) ≡ (c ∷ w) ∷ words t
      word_more = words-spaces k _ ∙ words-more c w t plain

pub Cut-shape :
    (room : ℕ) (pre rest : List ℕ) {t : Text}
    → Shape t
    → Cut room pre t (tokens_from room (pre ++ (t ++ (0 ∷ rest))) (length pre))
Cut-shape room pre rest (blank k) = Cut-blank room pre k rest
Cut-shape room pre rest (last k c w p q) = rw append_assoc (Cut-last pre k c w (p, q) rest room)
Cut-shape zero pre rest (more k c w t p q h) =
    rw (append_assoc (replicate k space), append_assoc (c ∷ w))
      (Cut-full pre k c w (p, q) (t ++ (0 ∷ rest)) t)
Cut-shape (suc room) pre rest (more k c w t p q h) =
    rw (append_assoc (replicate k space), append_assoc (c ∷ w))
      (Cut-more pre k c w (p, q) (t ++ (0 ∷ rest)) room t _ refl
        (Cut-shape room (behind pre k c w (p, q) []) rest (shape t h)))
