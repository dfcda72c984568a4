-- ===== src/Cmd/Args.antt =====
-- The slots of a command: which words they hold.
use multithreaded_chat_appli.Base.{
  All, List, Text, [], ap, arith, length, length-take, map, refl, replicate, suc, take, zero, ℕ,
  ◌++◌, ◌-◌, ◌<◌, ◌∙◌, ◌∷◌, ◌≡◌,
}
use multithreaded_chat_appli.Cmd.{name_size, fill_args}

abbrev pub clip : Text → Text
clip = take (name_size - 1)

fill_args-nil : (room : ℕ) → fill_args room [] ≡ replicate room []
unfolding fill_args
fill_args-nil zero = refl
fill_args-nil (suc room) = ap (λ r. [] ∷ r) (fill_args-nil room)

-- The slots hold the words in order, as many as there is room for, cut to nineteen bytes, then
-- empty strings.
pub fill_args-eq :
    (room : ℕ) (words : List Text)
    → fill_args room words ≡ map clip (take room words) ++ replicate (room - length words) []
unfolding fill_args
fill_args-eq zero words = let e : 0 ≡ 0 - length words = omega arith in ap (λ k. replicate k []) e
fill_args-eq (suc room) [] =
    let e : suc room ≡ suc room - 0 = omega arith in
    fill_args-nil (suc room) ∙ ap (λ k. replicate k []) e
fill_args-eq (suc room) (word ∷ words) =
    let e : room - length words ≡ suc room - suc (length words) = omega arith in
    ap (λ r. clip word ∷ r)
      (fill_args-eq room words ∙ ap (λ k. map clip (take room words) ++ replicate k []) e)

pub length-fill_args : (room : ℕ) (words : List Text) → length (fill_args room words) ≡ room
unfolding fill_args
length-fill_args zero words = refl
length-fill_args (suc room) [] = ap suc (length-fill_args room [])
length-fill_args (suc room) (word ∷ words) = ap suc (length-fill_args room words)

-- Every slot is terminated inside its twenty bytes.
pub fill_args-fits :
    (room : ℕ) (words : List Text) → All (λ s. length s < name_size) (fill_args room words)
unfolding fill_args
fill_args-fits zero words = tt
fill_args-fits (suc room) [] = (omega arith, fill_args-fits room [])
fill_args-fits (suc room) (word ∷ words) =
    (omega (arith, length-take 19 word), fill_args-fits room words)
