-- ===== src/Queue/Tokenise.antt =====
-- `get_and_tokenise`: the `$` and the words of a whole message.
use multithreaded_chat_appli.Base.{
  Bool-cases, inl, inr, ◌==◌, if◌then◌else◌, ◌-◌, ℕ, List, [], ◌∷◌, ◌++◌, Text, take, drop, ◌≡◌,
  refl, ◌≢◌, arith, All, map,
}
use multithreaded_chat_appli.CString.{cstring}
use multithreaded_chat_appli.CString.Words.{shape, words}
use multithreaded_chat_appli.Queue.{
  close_gap, remove_dollar_sign, get_and_tokenise, max_command_len,
}
use multithreaded_chat_appli.Queue.Tokens.{Cut-shape}

-- The text with its first `$` left out.
unfoldable pub drop_dollar : Text → Text
drop_dollar [] = []
drop_dollar (c ∷ t) = if c == b'$' then t else c ∷ drop_dollar t

close_gap-append :
    (t rest : List ℕ) → All (λ c. c ≢ 0) t → close_gap (t ++ (0 ∷ rest)) ≡ t ++ (0 ∷ 0 ∷ rest)
unfolding close_gap
close_gap-append [] rest h = refl
close_gap-append (c ∷ t) rest h = ground (arith, close_gap-append t rest h.1)

drop_dollar-All : (t : Text) → All (λ c. c ≢ 0) t → All (λ c. c ≢ 0) (drop_dollar t)
unfolding drop_dollar
drop_dollar-All [] h = tt
drop_dollar-All (c ∷ t) h = ground (arith, drop_dollar-All t h.1)

-- The bytes behind the text may grow by a second terminator.
remove_dollar_sign-append :
    (t rest : List ℕ)
    → All (λ c. c ≢ 0) t
    → (rest' : List ℕ) × (remove_dollar_sign (t ++ (0 ∷ rest)) ≡ drop_dollar t ++ (0 ∷ rest'))
unfolding remove_dollar_sign drop_dollar
remove_dollar_sign-append [] rest h = (rest, refl)
remove_dollar_sign-append (c ∷ t) rest h = elim (Bool-cases (c == b'$')) [
  | inl e ↦ (0 ∷ rest, ground (arith, close_gap-append t rest h.1))
  | inr e ↦ let (rest', ih) = remove_dollar_sign-append t rest h.1 in (rest', ground (arith, ih))
]

-- For a text without NUL, whatever stands behind its terminator, the tokens read from the memory
-- that the cut leaves are its words, the first `$` left out, up to forty-nine.
pub get_and_tokenise-words :
    (t rest : List ℕ)
    → All (λ c. c ≢ 0) t
    → let out = get_and_tokenise (t ++ (0 ∷ rest)) in
      map (λ p. cstring (drop p out.1)) out.0 ≡ take (max_command_len - 1) (words (drop_dollar t))
unfolding get_and_tokenise
get_and_tokenise-words t rest h =
    let (rest', e) = remove_dollar_sign-append t rest h in
    rw e (Cut-shape 49 [] rest' (shape (drop_dollar t) (drop_dollar-All t h))).2
