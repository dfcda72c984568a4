-- ===== src/Join/Spans.antt =====
-- How long words joined by single spaces are: never longer than the text that they were cut from.
use multithreaded_chat_appli.Base.{
  Bool, Bool-cases, List, Text, [], ap, arith, drop, false, if◌then◌else◌, inl, inr, length,
  length-append, length-take, ltb, refl, suc, take, true, zero, ℕ, ◌++◌, ◌+◌, ◌-◌, ◌<◌, ◌==◌, ◌∷◌,
  ◌≡◌, ◌≤◌, ◌⊎◌,
}
use multithreaded_chat_appli.CString.{space, cstring}
use multithreaded_chat_appli.CString.Words.{push, split, words}
use multithreaded_chat_appli.Cmd.{fill_args}
use multithreaded_chat_appli.Join.{join_args_from, join_args}
use multithreaded_chat_appli.Join.Unwords.{glue, unwords, filled}

glue-push :
    (w : Text) (ws : List Text) → length (glue (push w ws)) ≤ suc (length w) + length (glue ws)
unfolding glue push
glue-push [] ws = omega arith
glue-push (c ∷ w) ws = omega (arith, length-append (c ∷ w) (glue ws))

unwords-le : (ws : List Text) → length (unwords ws) ≤ length (glue ws)
unfolding unwords glue
unwords-le [] = omega arith
unwords-le (w ∷ ws) = omega arith

-- The cut at the first space.
length-split : (t : Text) → length (split t).0 + length (glue (split t).1) ≤ length t
unfolding split glue
length-split [] = omega arith
length-split (c ∷ t) = ground (arith, length-split t, glue-push (split t).0 (split t).1)

unwords-push :
    (w : Text) (ws : List Text) → length (unwords (push w ws)) ≤ length w + length (glue ws)
unfolding unwords push
unwords-push [] ws = omega (arith, unwords-le ws)
unwords-push (c ∷ w) ws = omega (arith, length-append (c ∷ w) (glue ws))

pub length-unwords : (t : Text) → length (unwords (words t)) ≤ length t
unfolding words
length-unwords t = omega (arith, length-split t, unwords-push (split t).0 (split t).1)

-- A space at the end adds no word.
split-trailing : (t : Text) → split (t ++ (space ∷ [])) ≡ split t
unfolding split push
split-trailing [] = refl
split-trailing (c ∷ t) = rw (split-trailing t) refl

pub words-trailing : (t : Text) → words (t ++ (space ∷ [])) ≡ words t
unfolding words
words-trailing t = rw (split-trailing t) refl

-- The first string of a text with a space behind it.
cstring_last :
    (t : Text)
    → (cstring (t ++ (space ∷ [])) ≡ cstring t)
      ⊎ (cstring (t ++ (space ∷ [])) ≡ cstring t ++ (space ∷ []))
unfolding cstring
cstring_last [] = inr refl
cstring_last (c ∷ t) = elim (Bool-cases (c == 0)) [
  | inl z ↦ inl (rw z refl)
  | inr n ↦ elim (cstring_last t) [
    | inl e ↦ inl (rw n (ap (λ r. c ∷ r) e))
    | inr e ↦ inr (rw n (ap (λ r. c ∷ r) e))
  ]
]

pub length-cstring : (t : Text) → length (cstring t) ≤ length t
unfolding cstring
length-cstring [] = omega arith
length-cstring (c ∷ t) = ground (arith, length-cstring t)

-- The words of a C string, joined again.
pub rejoined : (t : Text) → length (unwords (words (cstring t))) ≤ length t
rejoined t = omega (arith, length-unwords (cstring t), length-cstring t)

pub rejoined_trailing :
    (t : Text) → length (unwords (words (cstring (t ++ (space ∷ []))))) ≤ length t
rejoined_trailing t = elim (cstring_last t) [
  | inl e ↦ rw e (rejoined t)
  | inr e ↦ rw e (rw (words-trailing (cstring t)) (rejoined t))
]

-- The slots of a command hold no more than its words.
glue-slots : (n : ℕ) (ws : List Text) → length (glue (filled (fill_args n ws))) ≤ length (glue ws)
unfolding glue filled fill_args
glue-slots zero ws = omega arith
glue-slots (suc n) [] = omega arith
glue-slots (suc n) ([] ∷ ws) = omega arith
glue-slots (suc n) ((c ∷ w) ∷ ws) = omega (
  arith,
  glue-slots n ws,
  length-take 18 w,
  length-append w (glue ws),
  length-append (take 18 w) (glue (filled (fill_args n ws))),
)

pub unwords-slots :
    (n : ℕ) (ws : List Text) → length (unwords (filled (fill_args n ws))) ≤ length (unwords ws)
unfolding unwords filled fill_args
unwords-slots zero ws = omega arith
unwords-slots (suc n) [] = omega arith
unwords-slots (suc n) ([] ∷ ws) = omega arith
unwords-slots (suc n) ((c ∷ w) ∷ ws) = omega (
  arith,
  glue-slots n ws,
  length-take 18 w,
  length-append w (glue ws),
  length-append (take 18 w) (glue (filled (fill_args n ws))),
)

glue-take : (n : ℕ) (ws : List Text) → length (glue (take n ws)) ≤ length (glue ws)
unfolding glue
glue-take zero ws = omega arith
glue-take (suc n) [] = omega arith
glue-take (suc n) (w ∷ ws) =
    omega (arith, glue-take n ws, length-append w (glue ws), length-append w (glue (take n ws)))

pub unwords-take : (n : ℕ) (ws : List Text) → length (unwords (take n ws)) ≤ length (unwords ws)
unfolding unwords
unwords-take zero ws = omega arith
unwords-take (suc n) [] = omega arith
unwords-take (suc n) (w ∷ ws) =
    omega (arith, glue-take n ws, length-append w (glue ws), length-append w (glue (take n ws)))

-- What `join_args` leaves room for: a byte to spare, or a space at the end.
abbrev pub IsTight : ℕ → Text → Type 0
IsTight max_len r =
    (length r < max_len - 1) ⊎ ((t : Text) × (r ≡ t ++ (space ∷ [])) × (length t < max_len - 1))

-- One more word, where it still fits.
one_more :
    (spaced word : Text) (args : List Text) (max_len : ℕ)
    → IsTight max_len spaced
    → (length (spaced ++ word) < max_len - 1
        → IsTight max_len (join_args_from args (spaced ++ word) false max_len))
    → IsTight max_len (
        if ltb (length spaced + length word) (max_len - 1)
        then join_args_from args (spaced ++ word) false max_len
        else spaced)
one_more spaced word args max_len tight fits =
    elim (Bool-cases (ltb (length spaced + length word) (max_len - 1))) [
      | inl y ↦ rw y (fits (ground (arith, length-append spaced word)))
      | inr n ↦ rw n tight
    ]

join_args_from-IsTight :
    (args : List Text) (result : Text) (first : Bool) (max_len : ℕ)
    → length result < max_len - 1
    → IsTight max_len (join_args_from args result first max_len)
unfolding join_args_from
join_args_from-IsTight [] result first max_len h = inl h
join_args_from-IsTight ([] ∷ args) result first max_len h = inl h
join_args_from-IsTight ((c ∷ arg) ∷ args) result true max_len h =
    one_more result (c ∷ arg) args max_len (inl h)
      (join_args_from-IsTight args (result ++ (c ∷ arg)) false max_len)
join_args_from-IsTight ((c ∷ arg) ∷ args) result false max_len h =
    let open_end : ltb (length result) (max_len - 1) ≡ true = ground arith in
    rw open_end (
      one_more (result ++ (space ∷ [])) (c ∷ arg) args max_len (inr (result, refl, h))
        (join_args_from-IsTight args ((result ++ (space ∷ [])) ++ (c ∷ arg)) false max_len))

pub join_args-IsTight :
    (args : List Text) (start_index max_len : ℕ)
    → 1 < max_len
    → IsTight max_len (join_args args start_index max_len)
unfolding join_args
join_args-IsTight args start_index max_len h =
    join_args_from-IsTight (drop start_index args) [] true max_len (omega arith)
