-- ===== src/CString/Memory.antt =====
-- What the string functions read in memory of a known form: a text, its terminator and the rest.
use multithreaded_chat_appli.Base.{
  take, Text, ◌<◌, ℕ, zero, suc, ◌+◌, List, [], ◌∷◌, ◌++◌, none, some, ◌==◌, if◌then◌else◌, drop,
  get_or, set, replicate, ◌≡◌, refl, ◌≢◌, ap, arith, All, length, ◌∙◌,
}
use multithreaded_chat_appli.CString.{
  space, cstring, strncpy, spaces_at, word_at, Strtok, end_token, strtok,
}
use multithreaded_chat_appli.CString.Words.{IsPlain}

pub cstring-append : (t rest : List ℕ) → All (λ c. c ≢ 0) t → cstring (t ++ (0 ∷ rest)) ≡ t
unfolding cstring
cstring-append [] rest h = refl
cstring-append (c ∷ t) rest h = ground (arith, cstring-append t rest h.1)

pub cstring-All : (mem : List ℕ) → All (λ c. c ≢ 0) (cstring mem)
unfolding cstring
cstring-All [] = tt
cstring-All (c ∷ mem) = ground (arith, cstring-All mem)

pub spaces_at-spaces :
    (k : ℕ) (mem : List ℕ) → spaces_at (replicate k space ++ mem) ≡ k + spaces_at mem
unfolding spaces_at
spaces_at-spaces zero mem = omega arith
spaces_at-spaces (suc k) mem = omega (arith, spaces_at-spaces k mem)

pub word_at-word : (w mem : List ℕ) → All IsPlain w → word_at (w ++ mem) ≡ length w + word_at mem
unfolding word_at
word_at-word [] mem h = omega arith
word_at-word (c ∷ w) mem h = ground (arith, word_at-word w mem h.1)

-- `strtok` by where it finds its start and its stop.
module _ (mem : List ℕ) (saved start : ℕ) (from : saved + spaces_at (drop saved mem) ≡ start) where
  strtok_eq : strtok mem saved ≡ (
      if get_or mem start 0 == 0
      then (none, mem, start)
      else end_token mem start (start + word_at (drop start mem)))
  unfolding strtok
  strtok_eq =
      ap
        (λ (i : ℕ).
          let x : Strtok =
            (if get_or mem i 0 == 0
              then (none, mem, i)
              else end_token mem i (i + word_at (drop i mem))) in
          x)
        from

  pub strtok-none : get_or mem start 0 ≡ 0 → strtok mem saved ≡ (none, mem, start)
  strtok-none e = strtok_eq ∙ ground arith

  module _ (stop : ℕ) (to : start + word_at (drop start mem) ≡ stop)
      (found : get_or mem start 0 ≢ 0) where
    strtok_end : strtok mem saved ≡ end_token mem start stop
    strtok_end = strtok_eq ∙ ground arith

    pub strtok_last : get_or mem stop 0 ≡ 0 → strtok mem saved ≡ (some start, mem, stop)
    unfolding end_token
    strtok_last e = strtok_end ∙ ground arith

    pub strtok_more :
        get_or mem stop 0 ≢ 0 → strtok mem saved ≡ (some start, set mem stop 0, stop + 1)
    unfolding end_token
    strtok_more e = strtok_end ∙ ground arith

-- A copy by `strncpy` with its last byte set to 0 holds the start of the text, terminated.
take_terminated :
    (t : Text) (n m : ℕ)
    → n < m
    → (rest : List ℕ) × (set (take (suc n) (t ++ replicate m 0)) n 0 ≡ take n t ++ (0 ∷ rest))
take_terminated [] zero zero h = absurd (omega arith)
take_terminated [] zero (suc m) h = ([], refl)
take_terminated (c ∷ t) zero m h = ([], refl)
take_terminated [] (suc n) zero h = absurd (omega arith)
take_terminated [] (suc n) (suc m) h = (_, refl)
take_terminated (c ∷ t) (suc n) m h =
    let (rest, e) = take_terminated t n m (omega arith) in (rest, ap (λ r. c ∷ r) e)

pub strncpy-terminated :
    (src : List ℕ) (n : ℕ)
    → (rest : List ℕ) × (set (strncpy src (suc n)) n 0 ≡ take n (cstring src) ++ (0 ∷ rest))
unfolding strncpy
strncpy-terminated src n = take_terminated (cstring src) n (suc n) (omega arith)
