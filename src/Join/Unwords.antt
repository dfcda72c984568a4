-- ===== src/Join/Unwords.antt =====
-- Words joined by single spaces, as the independent description of both joins.
use multithreaded_chat_appli.Base.{All, List, Text, [], ap, append-nil, refl, ◌++◌, ◌∙◌, ◌∷◌, ◌≡◌}
use multithreaded_chat_appli.CString.{space}
use multithreaded_chat_appli.CString.Words.{IsPlain, words, words-more, words-last, words-blank}

-- Each word behind a space.
unfoldable pub glue : List Text → Text
glue [] = []
glue (w ∷ ws) = space ∷ (w ++ glue ws)

unfoldable pub unwords : List Text → Text
unwords [] = []
unwords (w ∷ ws) = w ++ glue ws

-- The slots in front of the first empty one.
unfoldable pub filled : List Text → List Text
filled [] = []
filled ([] ∷ args) = []
filled ((c ∷ arg) ∷ args) = (c ∷ arg) ∷ filled args

-- A word: at least one byte, no space and no terminator.
abbrev pub IsWord : Text → Type 0
IsWord [] = ⊥
IsWord (c ∷ w) = All IsPlain (c ∷ w)

-- Cutting joined words gives the words back.
pub words-unwords : (ws : List Text) → All IsWord ws → words (unwords ws) ≡ ws
unfolding unwords glue
words-unwords [] h = words-blank 0
words-unwords ([] ∷ ws) h = absurd h.0
words-unwords ((c ∷ w) ∷ []) h = rw append-nil (words-last c w h.0)
words-unwords ((c ∷ w) ∷ v ∷ ws) h =
    words-more c w (v ++ glue ws) h.0 ∙ ap (λ r. (c ∷ w) ∷ r) (words-unwords (v ∷ ws) h.1)

pub filled-append_nil : (ws rest : List Text) → All IsWord ws → filled (ws ++ ([] ∷ rest)) ≡ ws
unfolding filled
filled-append_nil [] rest h = refl
filled-append_nil ([] ∷ ws) rest h = absurd h.0
filled-append_nil ((c ∷ w) ∷ ws) rest h = ap (λ r. (c ∷ w) ∷ r) (filled-append_nil ws rest h.1)
