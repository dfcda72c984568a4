-- ===== src/Tests/Queues.antt =====
-- Tests of the queue.
use multithreaded_chat_appli.Base.{
  List, [], arith, drop, map, none, refl, some, take, text, ℕ, ◌++◌, ◌-◌, ◌∙◌, ◌∷◌, ◌≡◌,
}
use multithreaded_chat_appli.CString.{cstring}
use multithreaded_chat_appli.CString.Words.{split, push, words}
use multithreaded_chat_appli.Queue.{
  is_full, queue_init, Popped, Queue, q_append, q_pop, deref, get_and_tokenise, max_command_len,
}
use multithreaded_chat_appli.Queue.Inv.{IsValid, contents}
use multithreaded_chat_appli.Queue.Refine.{put_entry, get_entry, q_append-IsValid}
use multithreaded_chat_appli.Queue.Tokenise.{drop_dollar, get_and_tokenise-words}
use multithreaded_chat_appli.Queue.Schedule.{
  stored, took, blocked, Call, append, pop, run, run_entries, run_refines,
}
use multithreaded_chat_appli.Queue.Alias.{Appends, here, next, tokens_survive}
use multithreaded_chat_appli.Tests.Data.{buffer, empty_queue, empty_queue-IsValid}

abbrev greeting : List ℕ
greeting = buffer (text "say$ hello there")

abbrev calls : List Call
calls = pop ∷ append greeting (some 11) ∷ append (buffer (text "disconn$")) none ∷ pop ∷ pop ∷ []

run_refines_example : run empty_queue calls ≡ run_entries (contents empty_queue) calls
run_refines_example = run_refines calls empty_queue empty_queue-IsValid

abbrev one_waits : Queue
one_waits = elim (q_append empty_queue greeting (some 11)) [ none ↦ empty_queue | some q ↦ q ]

one_waits-IsValid : IsValid one_waits
unfolding q_append is_full queue_init
one_waits-IsValid = q_append-IsValid empty_queue greeting (some 11) empty_queue-IsValid refl

abbrev taken_one : Popped
taken_one = elim (q_pop one_waits) [
  | none ↦ record { out = []; sender = 0; queue = one_waits }
  | some r ↦ r
]

abbrev refilled : Queue
refilled = elim (q_append taken_one.queue greeting none) [ none ↦ one_waits | some q ↦ q ]

refilled-Appends : Appends taken_one.queue refilled
unfolding q_pop q_append is_full queue_init
refilled-Appends = next greeting none here refl

tokens_survive_example :
    map (deref refilled) taken_one.out ≡ map (deref taken_one.queue) taken_one.out
unfolding q_pop q_append is_full queue_init
tokens_survive_example =
    tokens_survive one_waits refilled taken_one one_waits-IsValid refl refilled-Appends

get_and_tokenise-words_example :
    (let out = get_and_tokenise (text "a$ b" ++ (0 ∷ [])) in
      map (λ p. cstring (drop p out.1)) out.0)
    ≡ take (max_command_len - 1) (words (drop_dollar (text "a$ b")))
get_and_tokenise-words_example =
    get_and_tokenise-words (text "a$ b") []
      (omega arith, (omega arith, (omega arith, (omega arith, tt))))

-- The message is cut into two words, and then the queue has nothing left.
replies :
    run empty_queue (append (buffer (text "ab$ c")) (some 11) ∷ pop ∷ pop ∷ [])
    ≡ stored ∷ took (text "ab" ∷ text "c" ∷ []) 11 ∷ blocked ∷ []
unfolding run_entries put_entry get_entry cstring words split push drop_dollar queue_init
replies =
    run_refines (append (buffer (text "ab$ c")) (some 11) ∷ pop ∷ pop ∷ []) empty_queue
      empty_queue-IsValid
    ∙ refl
