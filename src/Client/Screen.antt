-- ===== src/Client/Screen.antt =====
-- client_interface.c: the bytes that `chat_display` prints, at its start and on each redraw.
pub mod Reading
use multithreaded_chat_appli.Base.{List, Text, [], text, ℕ, ◌++◌, ◌∷◌}
use multithreaded_chat_appli.Client.{ChatClient, lines_shown, prompt}

-- The codes that begin and end a line of output.
abbrev pub escape : ℕ
escape = 27

abbrev pub newline : ℕ
newline = 10

-- `printf("%s\n", ...)` for each line.
unfoldable pub print_lines : List Text → Text
print_lines [] = []
print_lines (m ∷ messages) = m ++ (newline ∷ print_lines messages)

-- "\033[2J\033[H" and the title.
abbrev pub title : Text
title =
    (escape ∷ text "[2J")
    ++ ((escape ∷ text "[H") ++ (text "Chat Messages:" ++ (newline ∷ newline ∷ [])))

abbrev pub rule : Text
rule = text "---------------------" ++ (newline ∷ [])

-- What is printed before the loop: the switch to the alternate screen, and an empty screen.
unfoldable pub first_screen : ChatClient → Text
first_screen client = (escape ∷ text "[?1049h") ++ (title ++ (rule ++ prompt client))

-- One round of the loop behind its wait.
unfoldable pub redraw : ChatClient → Text
redraw client =
    title
    ++ (print_lines (lines_shown client.mute_table client.messages)
        ++ ((newline ∷ rule) ++ prompt client))
