-- ===== src/Queue/Refine.antt =====
-- A valid queue behaves as a bounded first-in first-out list of the messages that wait in it.
use multithreaded_chat_appli.Base.{
  All, List, Option, Text, [], ap, ap₂, arith, drop, eq_of_some, get_or-set_self, if◌then◌else◌,
  length, map, none, refl, some, suc, sym, take, zero, ℕ, ℕ_discrete, ◌%◌, ◌++◌, ◌+◌, ◌-◌, ◌==◌,
  ◌∙◌, ◌∷◌, ◌≡◌, ◌≢◌,
}
use mathlib.Core.Option
use mathlib.Core.List.{map-append}
use mathlib.Core.Path.{subst}
use multithreaded_chat_appli.CString.{cstring}
use multithreaded_chat_appli.CString.Words.{words}
use multithreaded_chat_appli.CString.Memory.{cstring-All}
use multithreaded_chat_appli.Queue.{
  Addr, Node, Queue, Popped, blank_node, deref, queue_max, q_append, q_pop, at_cell, sender_of,
  get_and_tokenise, max_command_len, queue_msg_size,
}
use multithreaded_chat_appli.Queue.Tokenise.{drop_dollar, get_and_tokenise-words}
use multithreaded_chat_appli.Queue.Window.{cell, window}
use multithreaded_chat_appli.Queue.Inv.{
  IsValid, IsTerminated, Entry, entry_of, contents, waiting, appended, popped, q_append-full,
  q_append-room, q_pop-empty, q_pop-some, waiting-appended, waiting-popped, appended-IsValid,
  popped-IsValid, entry_of-fill_node,
}

-- The specification: at most 255 messages of at most 511 bytes wait; a full list blocks the
-- producer and an empty one the consumer.
unfoldable pub put_entry : List Entry → List ℕ → Option Addr → Option (List Entry)
put_entry es msg addr =
    if length es == queue_max - 1
    then none
    else some (es ++ ((take (queue_msg_size - 1) (cstring msg), addr) ∷ []))

-- What the consumer gets: the words of the oldest message, and its sender (zeros for none).
abbrev pub Received : Type 0
Received = List Text × Addr × List Entry

unfoldable pub get_entry : List Entry → Option Received
get_entry [] = none
get_entry ((text, addr) ∷ es) =
    some (
      take (max_command_len - 1) (words (drop_dollar text)),
      elim addr [ none ↦ 0 | some a ↦ a ],
      es,
    )

abbrev pub received : Popped → Received
received r = (map (deref r.queue) r.out, r.sender, contents r.queue)

length-map {ℓ κ} :
    {A : Type ℓ} {B : Type κ} (f : A → B) (xs : List A) → length (map f xs) ≡ length xs
length-map f [] = refl
length-map f (x ∷ xs) = ap suc (length-map f xs)

length-window : (cells : List Node) (h n : ℕ) → length (window cells h n) ≡ n
length-window cells h zero = refl
length-window cells h (suc n) = ap suc (length-window cells ((h + 1) % queue_max) n)

pub length-contents : (q : Queue) → length (contents q) ≡ q.size
length-contents q = length-map entry_of (waiting q) ∙ length-window q.cells q.head q.size

contents-appended :
    (q : Queue) (msg : List ℕ) (addr : Option Addr)
    → IsValid q
    → q.size ≢ queue_max - 1
    → contents (appended q msg addr) ≡ contents q ++ ((take 511 (cstring msg), addr) ∷ [])
contents-appended q msg addr v room =
    ap (map entry_of) (waiting-appended q msg addr v room)
    ∙ map-append entry_of (waiting q) _
    ∙ ap (λ (e : Entry). contents q ++ (e ∷ [])) (entry_of-fill_node _ msg addr)

-- On a valid queue `q_append` blocks exactly when 255 messages wait, and else adds the text, cut
-- at 511 bytes, with its sender behind the others.
pub q_append_refines :
    (q : Queue) (msg : List ℕ) (addr : Option Addr)
    → IsValid q
    → Option.map contents (q_append q msg addr) ≡ put_entry (contents q) msg addr
unfolding put_entry
q_append_refines q msg addr v = elim (ℕ_discrete q.size (queue_max - 1)) [
  | yes full ↦ rw (q_append-full q msg addr v full, length-contents) (ground arith)
  | no room ↦
      rw (q_append-room q msg addr v room, length-contents)
        (ap some (contents-appended q msg addr v room) ∙ ground arith)
]

deref-at_cell :
    (q : Queue) (i : ℕ) (ps : List ℕ)
    → map (deref q) (at_cell i ps) ≡ map (λ p. cstring (drop p (cell q.cells i).msg)) ps
unfolding deref
deref-at_cell q i [] = refl
deref-at_cell q i (p ∷ ps) = ap₂ ◌∷◌ refl (deref-at_cell q i ps)

sender-entry_of : (n : Node) → sender_of n ≡ elim (entry_of n).1 [ none ↦ 0 | some a ↦ a ]
unfolding sender_of
sender-entry_of n = ground arith

-- The tokens behind a pop, read from the queue that it leaves.
pub tokens-popped :
    (q : Queue)
    → IsValid q
    → q.size ≢ 0
    → map (deref (popped q)) (at_cell q.head (get_and_tokenise (cell q.cells q.head).msg).0)
      ≡ take (max_command_len - 1) (words (drop_dollar (cstring (cell q.cells q.head).msg)))
tokens-popped q v h =
    deref-at_cell (popped q) q.head _
    ∙ ap (λ (n : Node). map (λ p. cstring (drop p n.msg)) (get_and_tokenise old.msg).0)
        (get_or-set_self q.cells q.head _ blank_node (rw v.room v.head_in))
    ∙ subst
        (λ (m : List ℕ).
          map (λ p. cstring (drop p (get_and_tokenise m).1)) (get_and_tokenise m).0
          ≡ take (max_command_len - 1) (words (drop_dollar (cstring old.msg))))
        (sym first.1) (get_and_tokenise-words (cstring old.msg) first.0 (cstring-All old.msg))
  where
    old : Node
    old = cell q.cells q.head

    first : IsTerminated old
    first =
        let t : All IsTerminated (old ∷ waiting (popped q)) =
          rw (waiting-popped q v h) at v.terminated in
        t.0

contents-popped :
    (q : Queue)
    → IsValid q
    → q.size ≢ 0
    → contents q ≡ entry_of (cell q.cells q.head) ∷ contents (popped q)
contents-popped q v h = ap (map entry_of) (waiting-popped q v h)

-- On a valid queue `q_pop` blocks exactly when nothing waits, and else takes the oldest message:
-- its words, read through the returned pointers, and its sender.
pub q_pop_refines : (q : Queue) → IsValid q → Option.map received (q_pop q) ≡ get_entry (contents q)
unfolding get_entry
q_pop_refines q v = elim (ℕ_discrete q.size 0) [
  | yes none_left ↦ rw (q_pop-empty q v none_left, none_left)
  | no some_left ↦
      rw (q_pop-some q v some_left, contents-popped q v some_left)
        (ap₂
          (λ (ts : List Text) (a : Addr).
            let x : Option Received = some (ts, a, contents (popped q)) in x)
          (tokens-popped q v some_left) (sender-entry_of (cell q.cells q.head)))
]

pub q_append-IsValid :
    (q : Queue) (msg : List ℕ) (addr : Option Addr) {q' : Queue}
    → IsValid q
    → q_append q msg addr ≡ some q'
    → IsValid q'
q_append-IsValid q msg addr v e = elim (ℕ_discrete q.size (queue_max - 1)) [
  | yes full ↦ cc (q_append-full q msg addr v full)
  | no room ↦
      subst IsValid (eq_of_some _ _ (sym (q_append-room q msg addr v room) ∙ e))
        (appended-IsValid q msg addr v room)
]

pub q_pop-IsValid : (q : Queue) {r : Popped} → IsValid q → q_pop q ≡ some r → IsValid r.queue
q_pop-IsValid q v e = elim (ℕ_discrete q.size 0) [
  | yes none_left ↦ cc (q_pop-empty q v none_left)
  | no some_left ↦
      subst (λ (r : Popped). IsValid r.queue) (eq_of_some _ _ (sym (q_pop-some q v some_left) ∙ e))
        (popped-IsValid q v some_left)
]
