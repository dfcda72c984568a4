-- ===== src/Client/Display.antt =====
-- `chat_display` with `mute` and `unmute`: which lines of chat a client shows.
use multithreaded_chat_appli.Base.{
  List, Text, [], ap, arith, false, refl, same, same_iff, sym, true, ◌||◌, ◌∙◌, ◌∷◌, ◌≡◌,
}
use multithreaded_chat_appli.Cmd.{name_size}
use multithreaded_chat_appli.HashTable.{Table, insert, contains, remove_key, extract_username}
use multithreaded_chat_appli.HashTable.Laws.{
  IsValid, insert-IsValid, contains-insert, contains-remove_key,
}
use multithreaded_chat_appli.Client.{lines_shown}

-- The lines whose sender is not that name.
abbrev pub without : Text → List Text → List Text
without name [] = []
without name (m ∷ messages) = elim (same name (extract_username m name_size)) [
  | true ↦ without name messages
  | false ↦ m ∷ without name messages
]

-- A set of names with one added shows what it showed without that one's lines.
lines_shown-without :
    (table table' : Table) (name : Text)
    → ((j : Text) → contains table' j ≡ (same name j || contains table j))
    → (messages : List Text)
    → lines_shown table' messages ≡ without name (lines_shown table messages)
unfolding lines_shown
lines_shown-without table table' name h [] = refl
lines_shown-without table table' name h (m ∷ messages) =
    ground
      (arith, lines_shown-without table table' name h messages, h (extract_username m name_size))

lines_shown-congr :
    (table table' : Table)
    → ((j : Text) → contains table' j ≡ contains table j)
    → (messages : List Text) → lines_shown table' messages ≡ lines_shown table messages
unfolding lines_shown
lines_shown-congr table table' h [] = refl
lines_shown-congr table table' h (m ∷ messages) =
    ground (arith, lines_shown-congr table table' h messages, h (extract_username m name_size))

module _ (table : Table) (name : Text) (v : IsValid table) (messages : List Text) where
  -- For a valid table, behind a `mute` exactly the lines of that sender are gone from the display.
  pub lines_shown-insert :
      lines_shown (insert table name) messages ≡ without name (lines_shown table messages)
  lines_shown-insert =
      lines_shown-without table (insert table name) name (contains-insert table name v) messages

  -- For a valid table, an `unmute` behind the `mute` of a name that was not muted brings the
  -- display back.
  pub lines_shown-remove_key :
      contains table name ≡ false
      → lines_shown (remove_key (insert table name) name) messages ≡ lines_shown table messages
  lines_shown-remove_key e =
      lines_shown-congr table (remove_key (insert table name) name) back messages
    where
      back : (j : Text) → contains (remove_key (insert table name) name) j ≡ contains table j
      back j =
          contains-remove_key (insert table name) name (insert-IsValid table name v) j
          ∙ ground (
            arith,
            contains-insert table name v j,
            same_iff name j,
            λ (q : name ≡ j). sym (ap (contains table) q) ∙ e,
          )
