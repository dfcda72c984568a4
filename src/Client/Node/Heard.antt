-- ===== src/Client/Node/Heard.antt =====
-- The server's packets at the client's listener.
use multithreaded_chat_appli.Base.{
  All_right, List, [], ap, append_assoc, arith, drop, length, refl, sym, take, take_self, ℕ, ◌++◌,
  ◌-◌, ◌∙◌, ◌∷◌, ◌≡◌, ◌≤◌,
}
use mathlib.Core.Path.{subst}
use multithreaded_chat_appli.CString.{cstring}
use multithreaded_chat_appli.ClientList.Chain.{Item}
use multithreaded_chat_appli.Queue.{Queue, queue_max, queue_msg_size}
use multithreaded_chat_appli.Server.{Packet}
use multithreaded_chat_appli.Client.Input.{buffer_size}
use multithreaded_chat_appli.Delivery.Survive.{IsMildText, stored}
use multithreaded_chat_appli.Room.Packets.{IsGood}
use multithreaded_chat_appli.Service.{
  Runs, boot, Service, Event, client_request, turn as server_turn, done as sent_done,
}
use multithreaded_chat_appli.Service.Agree.{IsReady, hall_of}
use multithreaded_chat_appli.Service.Booted.{AllSane, reached-IsOrderly}
use multithreaded_chat_appli.Service.Fine.{IsOrderly, IsSane}
use multithreaded_chat_appli.Service.Orderly.{turn-IsOrderly}
use multithreaded_chat_appli.Client.Node.{ClientNode, listens, turn}
use multithreaded_chat_appli.Client.Node.Safe.{IsSafe, StaysSafe, turn-IsSafe}

pub cstring-append_zero : (t rest : List ℕ) → cstring (t ++ (0 ∷ rest)) ≡ cstring t
unfolding cstring
cstring-append_zero [] rest = refl
cstring-append_zero (c ∷ t) rest = rw (cstring-append_zero t rest) refl

-- The text at the front of a datagram, read as a string.
pub stored-heard :
    (body rest stack : List ℕ)
    → length (body ++ (0 ∷ rest)) ≤ buffer_size
    → stored (client_request (body ++ (0 ∷ rest)) stack) ≡ stored body
unfolding client_request
stored-heard body rest stack fits =
    let datagram = body ++ (0 ∷ rest) in
    let junk = drop (length datagram) stack in
    let whole : take buffer_size datagram ≡ datagram =
      take_self buffer_size datagram (omega arith) in
    ap (take (queue_msg_size - 1)) (
      ap (λ r. cstring (r ++ drop (length r) stack)) whole
      ∙ ap cstring (append_assoc body (0 ∷ rest) junk)
      ∙ cstring-append_zero body (rest ++ junk))

-- Any packet that a round of the server sends, taken up by the listener of a client whose parts
-- are safe, crashes nothing and leaves the client safe, whatever stands behind the text and its
-- terminator in the buffers, where the server's parts are in order, its names, lines and waiting
-- commands fit their slots, and so does a command that is not initialised.
pub heard_safe :
    (v : Service) (xs : List Item)
    → IsReady v xs
    → IsOrderly (hall_of v xs)
    → (e : Event) → IsSane e
    → {w : Service} (before after : List Packet) (p : Packet)
    → server_turn v e ≡ sent_done w (before ++ (p ∷ after))
    → (n : ClientNode) → IsSafe n
    → (rest stack : List ℕ) → length (p.body ++ (0 ∷ rest)) ≡ p.bytes
    → StaysSafe (turn n (listens (p.body ++ (0 ∷ rest)) stack))
heard_safe v xs r o e sane before after p q n s rest stack size =
    let (_, _, _, good) = turn-IsOrderly v xs r o e sane q in
    let (fits, small, mild) = (All_right IsGood before (p ∷ after) good).0 in
    turn-IsSafe n s (listens (p.body ++ (0 ∷ rest)) stack)
      (subst IsMildText (sym (stored-heard p.body rest stack (omega (arith, size, small)))) mild)

-- Any packet that the booted server sends after any schedule, taken up by the listener of a client
-- whose parts are safe, crashes nothing and leaves the client safe, whatever stands behind the
-- text and its terminator in the buffers, where the commands that the parser may leave
-- uninitialised are terminated in their slots.
pub booted_heard_safe :
    (memory : Queue) {v : Service}
    → length memory.cells ≡ queue_max
    → (runs : Runs (boot memory) v) → AllSane runs
    → (e : Event) → IsSane e
    → {w : Service} (before after : List Packet) (p : Packet)
    → server_turn v e ≡ sent_done w (before ++ (p ∷ after))
    → (n : ClientNode) → IsSafe n
    → (rest stack : List ℕ) → length (p.body ++ (0 ∷ rest)) ≡ p.bytes
    → StaysSafe (turn n (listens (p.body ++ (0 ∷ rest)) stack))
booted_heard_safe memory {v} h runs sane e sane' before after p q n s rest stack size =
    let (xs, r, o) = reached-IsOrderly memory h runs sane in
    heard_safe v xs r o e sane' before after p q n s rest stack size
