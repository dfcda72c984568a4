-- ===== src/Server/History.antt =====
-- `chat_history` over a whole run: what it holds after a number of messages, and what a new client
-- gets of it.
use multithreaded_chat_appli.Base.{
  Bool-cases, List, Text, [], ap, append-nil, append_assoc, arith, drop, inl, inr, length,
  length-append, ltb, refl, suc, sym, take, take-nil, ◌++◌, ◌-◌, ◌∙◌, ◌∷◌, ◌≡◌, ◌≤◌,
}
use multithreaded_chat_appli.Server.{max_msgs, chat_history_size, remember, recent_history}

-- The history after a run of `say`s.
unfoldable pub remember_all : List Text → List Text → List Text
remember_all history [] = history
remember_all history (m ∷ messages) = remember_all (remember history m) messages

remember_all-room :
    (history messages : List Text)
    → length history ≤ max_msgs
    → remember_all history messages ≡ history ++ take (max_msgs - length history) messages
unfolding remember_all remember
remember_all-room history [] h = rw take-nil (sym (append-nil history))
remember_all-room history (m ∷ messages) h = elim (Bool-cases (ltb (length history) max_msgs)) [
  | inl e ↦
      let room : max_msgs - length history ≡ suc (max_msgs - suc (length history)) = ground arith in
      let more : length (history ++ (m ∷ [])) ≡ suc (length history) =
        omega (arith, length-append history (m ∷ [])) in
      rw e (
        remember_all-room (history ++ (m ∷ [])) messages (ground (arith, more))
        ∙ ap (λ k. (history ++ (m ∷ [])) ++ take (max_msgs - k) messages) more
        ∙ append_assoc history (m ∷ []) _
        ∙ ap (λ k. history ++ take k (m ∷ messages)) (sym room))
  | inr e ↦
      let full : max_msgs - length history ≡ 0 = ground arith in
      rw e (
        remember_all-room history messages h
        ∙ ap (λ k. history ++ take k messages) full
        ∙ ap (λ k. history ++ take k (m ∷ messages)) (sym full))
]

-- After any run of messages the history holds the first hundred, and a new client gets the last
-- fifteen of these.
pub recent_history-remember_all :
    (messages : List Text)
    → let kept = take max_msgs messages in
      (remember_all [] messages ≡ kept)
      × (recent_history (remember_all [] messages) ≡ drop (length kept - chat_history_size) kept)
unfolding recent_history
recent_history-remember_all messages =
    let kept = take max_msgs messages in
    let e : remember_all [] messages ≡ kept = remember_all-room [] messages (omega arith) in
    (
      e,
      ap recent_history e ∙ (elim (Bool-cases (ltb chat_history_size (length kept))) [
        | inl long ↦ rw long refl
        | inr short ↦
            let none_left : length kept - chat_history_size ≡ 0 = ground arith in
            rw (short, none_left) refl
      ]),
    )
