-- ===== src/Room/Private.antt =====
-- The lines of private messages, whose length is next to the bound of a client's join.
use multithreaded_chat_appli.Base.{
  Text, [], ap, append_assoc, arith, inl, inr, length, length-append, sym, text, ◌++◌, ◌<◌, ◌∙◌,
  ◌∷◌, ◌≡◌, ◌≤◌,
}
use mathlib.Core.Path.{subst}
use multithreaded_chat_appli.CString.{cstring, space}
use multithreaded_chat_appli.CString.Words.{words}
use multithreaded_chat_appli.Queue.{Addr}
use multithreaded_chat_appli.Cmd.{name_size, max_message, response_buffer_size}
use multithreaded_chat_appli.Join.{join_size}
use multithreaded_chat_appli.Join.Unwords.{unwords}
use multithreaded_chat_appli.Join.Spans.{IsTight, rejoined, rejoined_trailing}
use multithreaded_chat_appli.Server.Handlers.{to_one}
use multithreaded_chat_appli.Delivery.Survive.{line-IsMild}
use multithreaded_chat_appli.Room.Packets.{IsGood, printed}

-- A prefix and a joined text are short enough for a client's join, if only just.
tight_line :
    (before w : Text)
    → length before ≤ 45
    → IsTight max_message w
    → length (unwords (words (cstring (before ++ w)))) < join_size
tight_line before w h (inl e) = omega (arith, rejoined (before ++ w), length-append before w)
tight_line before w h (inr (t, e, e')) =
    let regrouped : before ++ w ≡ (before ++ t) ++ (space ∷ []) =
      rw e (sym (append_assoc before t (space ∷ []))) in
    rw regrouped (omega (arith, rejoined_trailing (before ++ t), length-append before t))

length-tight : (w : Text) → IsTight max_message w → length w ≤ 255
length-tight w (inl e) = omega arith
length-tight w (inr (t, e, e')) = rw e (omega (arith, length-append t (space ∷ [])))

tight-IsGood :
    (before w : Text) (a : Addr)
    → length before ≤ 45
    → IsTight max_message w
    → IsGood (to_one (text "say$ " ++ (before ++ w)) a)
tight-IsGood before w a h tight =
    let size : length (before ++ w) ≤ 300 =
      omega (arith, length-append before w, length-tight w tight) in
    printed response_buffer_size (text "say$ " ++ (before ++ w)) a (omega arith) (omega arith)
      (line-IsMild (before ++ w) (omega arith) (tight_line before w h tight))

-- A private line: words before the name, the name, and the joined text.
pub private-IsGood :
    (before name w : Text) (a : Addr)
    → length before ≤ 7
    → length name < name_size
    → IsTight max_message w
    → IsGood (to_one (text "say$ " ++ (before ++ (name ++ (text ":(private message) " ++ w)))) a)
private-IsGood before name w a h h' tight =
    let colon = text ":(private message) " in
    let grouped : (before ++ (name ++ colon)) ++ w ≡ before ++ (name ++ (colon ++ w)) =
      append_assoc before (name ++ colon) w ∙ ap (λ x. before ++ x) (append_assoc name colon w) in
    subst (λ x. IsGood (to_one (text "say$ " ++ x) a)) grouped
      (tight-IsGood (before ++ (name ++ colon)) w a
        (omega (arith, length-append before (name ++ colon), length-append name colon)) tight)
