-- ===== src/Client/Program/Lines.antt =====
-- The lines that the input threads read, and the packets that they make of them.
use multithreaded_chat_appli.Base.{
  All, Bool, Bool-cases, Text, [], ap, arith, false, if◌then◌else◌, inl, inr, length, ltb, same,
  some, suc, text, true, zero, ℕ, ◌-◌, ◌<◌, ◌==◌, ◌∷◌, ◌≡◌, ◌≢◌, ◌≤◌,
}
use multithreaded_chat_appli.CString.{cstring}
use multithreaded_chat_appli.CString.Memory.{cstring-All}
use multithreaded_chat_appli.Join.Spans.{length-cstring}
use multithreaded_chat_appli.Client.Input.{
  Action, send, send_exit, exit_program, ignore, before_newline, user_input_pre_connection,
  user_input,
}
use multithreaded_chat_appli.Client.Input.Requests.{
  before_newline-All, before_newline-length, user_input_pre_connection-requests,
}
use multithreaded_chat_appli.Client.Program.{max_len, fgets, get_line}

-- A string of one line that the buffer has room for.
pub record IsLine (m : Text) : Type 0 where
  pub short : length m < max_len
  pub plain : All (λ c. c ≢ 0) m

pub record IsTyped (m : Text) : Type 0 where
  pub is_line : IsLine m
  pub one_line : All (λ c. c ≢ 10) m

get_line-short : (n : ℕ) (stream : Text) → length (get_line n stream).0 ≤ n
unfolding get_line
get_line-short zero stream = omega arith
get_line-short (suc n) [] = omega arith
get_line-short (suc n) (c ∷ stream) = ground (arith, get_line-short n stream)

pub fgets-IsLine :
    (stream line rest : Text) → fgets max_len stream ≡ some (line, rest) → IsLine (cstring line)
unfolding fgets
fgets-IsLine [] line rest e = absurd cc
fgets-IsLine (c ∷ stream) line rest e =
    let read : (get_line (max_len - 1) (c ∷ stream)).0 ≡ line = cc in
    record {
      short =
          omega
            (arith, length-cstring line, get_line-short (max_len - 1) (c ∷ stream), ap length read);
      plain = cstring-All line;
    }

before_newline-one : (t : Text) → All (λ c. c ≢ 10) (before_newline t)
unfolding before_newline
before_newline-one [] = tt
before_newline-one (c ∷ t) = elim (Bool-cases (c == 10)) [
  | inl e ↦ rw e tt
  | inr e ↦ rw e (λ z. ground (arith), before_newline-one t)
]

pub before_newline-IsTyped : (typed : Text) → IsLine typed → IsTyped (before_newline typed)
before_newline-IsTyped typed v = record {
  is_line = record {
    short = omega (arith, before_newline-length typed, v.short);
    plain = before_newline-All (λ c. c ≢ 0) typed v.plain;
  };
  one_line = before_newline-one typed;
}

-- The tests of a line, only some outcomes of which let a packet out.
sent_text : Action → Text
sent_text (send m) = m
sent_text (send_exit m) = m
sent_text _ = []

one_send :
    (quits full : Bool) (a m : Text)
    → (if quits then exit_program else if full then send a else ignore) ≡ send m
    → a ≡ m
unfolding sent_text
one_send true full a m e = cc
one_send false true a m e = ap sent_text e
one_send false false a m e = cc

-- Every packet of the first thread is the line.
pub pre_sends :
    (now_connected : Bool) (typed m : Text)
    → IsLine typed
    → user_input_pre_connection now_connected typed ≡ send m
    → before_newline typed ≡ m
unfolding user_input_pre_connection
pre_sends false typed m v e =
    let (_, _, _, whole) = user_input_pre_connection-requests typed m v.short e in whole
pre_sends true typed m v e =
    one_send (same (before_newline typed) (text ":q")) (ltb 0 (length (before_newline typed)))
      (before_newline typed) m e

any_send :
    (quits leaves full : Bool) (d a m : Text)
    → (if quits then send_exit d else if leaves then send a else if full then send a else ignore)
      ≡ send m
    → a ≡ m
unfolding sent_text
any_send true leaves full d a m e = cc
any_send false true full d a m e = ap sent_text e
any_send false false true d a m e = ap sent_text e
any_send false false false d a m e = cc

any_leave :
    (quits leaves full : Bool) (d a m : Text)
    → (if quits then send_exit d else if leaves then send a else if full then send a else ignore)
      ≡ send_exit m
    → d ≡ m
unfolding sent_text
any_leave true leaves full d a m e = ap sent_text e
any_leave false true full d a m e = cc
any_leave false false true d a m e = cc
any_leave false false false d a m e = cc

module _ (typed m : Text) where
  pub post_sends : user_input typed ≡ send m → before_newline typed ≡ m
  unfolding user_input
  post_sends =
      any_send (same (before_newline typed) (text ":q"))
        (same (before_newline typed) (text "disconn$")) (ltb 0 (length (before_newline typed)))
        (text "disconn$") (before_newline typed) m

  pub post_leaves : user_input typed ≡ send_exit m → text "disconn$" ≡ m
  unfolding user_input
  post_leaves =
      any_leave (same (before_newline typed) (text ":q"))
        (same (before_newline typed) (text "disconn$")) (ltb 0 (length (before_newline typed)))
        (text "disconn$") (before_newline typed) m
