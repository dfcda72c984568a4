-- ===== src/Join/Laws.antt =====
-- Both joins give the words joined by single spaces, where these fit, and stay in their buffers.
use multithreaded_chat_appli.Base.{
  Bool, List, Text, [], ap, append-nil, append_assoc, arith, drop, false, length, length-append,
  refl, some, sym, true, ℕ, ◌++◌, ◌+◌, ◌-◌, ◌<◌, ◌∷◌, ◌≡◌, ◌≤◌,
}
use multithreaded_chat_appli.CString.{space}
use multithreaded_chat_appli.Join.{
  join_args_from, join_args, join_from, join, join_size, append_result,
}
use multithreaded_chat_appli.Join.Unwords.{glue, unwords, filled}

join_args_from-le :
    (args : List Text) (result : Text) (first : Bool) (max_len : ℕ)
    → length result ≤ max_len - 1
    → length (join_args_from args result first max_len) ≤ max_len - 1
unfolding join_args_from
join_args_from-le [] result first max_len h = h
join_args_from-le ([] ∷ args) result first max_len h = h
join_args_from-le ((c ∷ arg) ∷ args) result first max_len h = ground (
  arith,
  length-append result (space ∷ []),
  length-append result (c ∷ arg),
  length-append (result ++ (space ∷ [])) (c ∷ arg),
  join_args_from-le args (result ++ (c ∷ arg)) false max_len,
  join_args_from-le args ((result ++ (space ∷ [])) ++ (c ∷ arg)) false max_len,
)

-- For a buffer that is not empty, the joined text and its terminator fit into it.
pub join_args-lt :
    (args : List Text) (start_index max_len : ℕ)
    → 0 < max_len
    → length (join_args args start_index max_len) < max_len
unfolding join_args
join_args-lt args start_index max_len h =
    omega (arith, join_args_from-le (drop start_index args) [] true max_len)

regroup :
    (result w rest : Text)
    → ((result ++ (space ∷ [])) ++ w) ++ rest ≡ result ++ (space ∷ (w ++ rest))
regroup result w rest = simp append_assoc

regroup' :
    (result w rest : Text)
    → ((result ++ w) ++ (space ∷ [])) ++ rest ≡ result ++ (w ++ (space ∷ rest))
regroup' result w rest = simp append_assoc

join_args_from-glue :
    (args : List Text) (result : Text) (max_len : ℕ)
    → length result + length (glue (filled args)) < max_len - 1
    → join_args_from args result false max_len ≡ result ++ glue (filled args)
unfolding join_args_from glue filled
join_args_from-glue [] result max_len h = sym (append-nil result)
join_args_from-glue ([] ∷ args) result max_len h = sym (append-nil result)
join_args_from-glue ((c ∷ arg) ∷ args) result max_len h = ground (
  arith,
  length-append result (space ∷ []),
  length-append (result ++ (space ∷ [])) (c ∷ arg),
  length-append (c ∷ arg) (glue (filled args)),
  regroup result (c ∷ arg) (glue (filled args)),
  join_args_from-glue args ((result ++ (space ∷ [])) ++ (c ∷ arg)) max_len,
)

join_first :
    (args : List Text) (max_len : ℕ)
    → length (unwords (filled args)) < max_len - 1
    → join_args_from args [] true max_len ≡ unwords (filled args)
unfolding join_args_from unwords filled
join_first [] max_len h = refl
join_first ([] ∷ args) max_len h = refl
join_first ((c ∷ arg) ∷ args) max_len h = ground (
  arith,
  length-append (c ∷ arg) (glue (filled args)),
  join_args_from-glue args (c ∷ arg) max_len,
)

-- Where they and their terminator fit with a byte to spare, `join_args` gives the words from
-- `start_index` to the first empty slot joined by single spaces.
pub join_args-unwords :
    (args : List Text) (start_index max_len : ℕ)
    → length (unwords (filled (drop start_index args))) < max_len - 1
    → join_args args start_index max_len ≡ unwords (filled (drop start_index args))
unfolding join_args
join_args-unwords args start_index max_len h = join_first (drop start_index args) max_len h

-- Some slot is empty: the scan for it ends inside the array.
abbrev pub HasEmpty : List Text → Type 0
HasEmpty [] = ⊥
HasEmpty ([] ∷ args) = Unit
HasEmpty ((c ∷ arg) ∷ args) = HasEmpty args

join_from-unwords :
    (args : List Text) (result : Text)
    → HasEmpty args
    → length result + length (unwords (filled args)) < join_size
    → join_from args result ≡ some (result ++ unwords (filled args))
unfolding join_from append_result unwords filled glue
join_from-unwords [] result e h = absurd e
join_from-unwords ([] ∷ args) result e h = ap some (sym (append-nil result))
join_from-unwords ((c ∷ arg) ∷ []) result e h = absurd e
join_from-unwords ((c ∷ arg) ∷ [] ∷ args) result e h =
    ground (arith, append-nil arg, append-nil (result ++ (c ∷ arg)), length-append (c ∷ arg) [])
join_from-unwords ((c ∷ arg) ∷ (d ∷ arg') ∷ args) result e h =
    let rest = glue (filled args) in
    ground (
      arith,
      length-append result (c ∷ arg),
      length-append (result ++ (c ∷ arg)) (space ∷ []),
      length-append arg (space ∷ ((d ∷ arg') ++ rest)),
      join_from-unwords ((d ∷ arg') ∷ args) ((result ++ (c ∷ arg)) ++ (space ∷ [])) e,
      regroup' result (c ∷ arg) ((d ∷ arg') ++ rest),
    )

-- Where some slot is empty and the text has less than 300 bytes, `join` stays inside its buffer
-- and the array, and gives the words joined by single spaces.
pub join-unwords :
    (args : List Text)
    → HasEmpty args
    → length (unwords (filled args)) < join_size
    → join args ≡ some (unwords (filled args))
unfolding join
join-unwords args e h = join_from-unwords args [] e (omega arith)
