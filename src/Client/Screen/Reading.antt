-- ===== src/Client/Screen/Reading.antt =====
-- The screen, read back line by line.
use multithreaded_chat_appli.Base.{
  All, List, Text, [], false, if◌then◌else◌, suc, zero, ℕ, ◌==◌, ◌∷◌, ◌≡◌,
}
use multithreaded_chat_appli.Client.Screen.{newline}

-- The first line of a text, and what stands behind its end.
abbrev pub read_line : Text → Text × Text
read_line [] = ([], [])
read_line (c ∷ cs) =
    let rest = read_line cs in if c == newline then ([], cs) else (c ∷ rest.0, rest.1)

abbrev pub read_lines : ℕ → Text → List Text
read_lines zero t = []
read_lines (suc n) t = (read_line t).0 ∷ read_lines n (read_line t).1

-- A text without a line break.
abbrev pub IsLine : Text → Type 0
IsLine m = All (λ (c : ℕ). c == newline ≡ false) m
