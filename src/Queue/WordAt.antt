-- ===== src/Queue/WordAt.antt =====
-- `strtok` at a word that stands behind other memory and some spaces.
use multithreaded_chat_appli.Base.{
  All, List, Text, ap, arith, drop, drop-append, drop-append_add, get_or, get_or-append_add, length,
  length-replicate, refl, replicate, set, set-append_add, some, ℕ, ◌++◌, ◌+◌, ◌∙◌, ◌∷◌, ◌≡◌, ◌≢◌,
}
use multithreaded_chat_appli.CString.{space, cstring, spaces_at, word_at, Strtok, strtok}
use multithreaded_chat_appli.CString.Words.{IsPlain, plain-nonzero}
use multithreaded_chat_appli.CString.Memory.{
  cstring-append, spaces_at-spaces, word_at-word, strtok_last, strtok_more,
}

-- The string at an offset.
abbrev pub read : List ℕ → ℕ → Text
read mem p = cstring (drop p mem)

-- A word `b` behind the memory `pre` and `k` spaces, where it starts and where it stops.
abbrev pub before : List ℕ → ℕ → List ℕ → List ℕ → List ℕ
before pre k b r = pre ++ (replicate k space ++ (b ++ r))

abbrev pub start : List ℕ → ℕ → ℕ
start pre k = length pre + (length (replicate k space) + 0)

abbrev pub stop : List ℕ → ℕ → List ℕ → ℕ
stop pre k b = length pre + (length (replicate k space) + (length b + 0))

module _ (pre : List ℕ) (k : ℕ) (b : List ℕ) (r : List ℕ) where
  pub start_eq :
      spaces_at (b ++ r) ≡ 0
      → length pre + spaces_at (drop (length pre) (before pre k b r)) ≡ start pre k
  start_eq e = rw (drop-append, spaces_at-spaces) (omega (arith, e, length-replicate k space))

  drop-start : drop (start pre k) (before pre k b r) ≡ b ++ r
  drop-start = rw (drop-append_add, drop-append_add)

  stop_eq :
      All IsPlain b
      → word_at r ≡ 0
      → start pre k + word_at (drop (start pre k) (before pre k b r)) ≡ stop pre k b
  stop_eq plain e = rw drop-start (rw (word_at-word b r plain) (omega (arith, e)))

  pub get_or-start : get_or (before pre k b r) (start pre k) 0 ≡ get_or (b ++ r) 0 0
  get_or-start = rw (get_or-append_add, get_or-append_add)

  get_or-stop : get_or (before pre k b r) (stop pre k b) 0 ≡ get_or r 0 0
  get_or-stop = rw (get_or-append_add, get_or-append_add, get_or-append_add)

  set-stop : set (before pre k b r) (stop pre k b) 0 ≡ before pre k b (set r 0 0)
  set-stop = rw (set-append_add, set-append_add, set-append_add)

-- `strtok` at the word: before a space, and at the end of the text.
module _ (pre : List ℕ) (k c : ℕ) (w : List ℕ) (plain : All IsPlain (c ∷ w)) (rest : List ℕ) where
  abbrev pub word : List ℕ
  word = c ∷ w

  pub heads : (r : List ℕ) → (spaces_at (word ++ r) ≡ 0) × (get_or (word ++ r) 0 0 ≢ 0)
  unfolding spaces_at
  heads r = ground arith

  pub find_last :
      strtok (before pre k word (0 ∷ rest)) (length pre)
      ≡ (some (start pre k), before pre k word (0 ∷ rest), stop pre k word)
  unfolding word_at
  find_last =
      let r = 0 ∷ rest in
      strtok_last (before pre k word r) (length pre) (start pre k)
        (start_eq pre k word r (heads r).0) (stop pre k word) (stop_eq pre k word r plain refl)
        (rw (get_or-start pre k word r) (heads r).1) (get_or-stop pre k word r)

  pub find_more :
      strtok (before pre k word (space ∷ rest)) (length pre)
      ≡ (some (start pre k), before pre k word (0 ∷ rest), stop pre k word + 1)
  unfolding word_at
  find_more =
      let r = space ∷ rest in
      strtok_more (before pre k word r) (length pre) (start pre k)
        (start_eq pre k word r (heads r).0) (stop pre k word) (stop_eq pre k word r plain refl)
        (rw (get_or-start pre k word r) (heads r).1) (rw (get_or-stop pre k word r) (omega arith))
      ∙ ap (λ (m : List ℕ). (let x : Strtok = (some (start pre k), m, stop pre k word + 1) in x))
          (set-stop pre k word r)

  -- Whatever comes behind the terminator, the token reads as the word.
  pub read-start : read (before pre k word (0 ∷ rest)) (start pre k) ≡ word
  read-start =
      ap cstring (drop-start pre k word (0 ∷ rest))
      ∙ cstring-append word rest (plain-nonzero word plain)
