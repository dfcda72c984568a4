-- ===== src/Client/Program/Talks.antt =====
-- What the client's input threads send in the states that its schedules lead to.
use multithreaded_chat_appli.Base.{
  List, Text, [], ap, arith, inl, inr, length, length-append, sym, take, text, ℕ, ◌++◌, ◌-◌, ◌<◌,
  ◌∙◌, ◌∷◌, ◌≡◌,
}
use mathlib.Core.Path.{subst}
use multithreaded_chat_appli.Sockets.{Os, SockaddrIn}
use multithreaded_chat_appli.CString.Memory.{cstring-append}
use multithreaded_chat_appli.Queue.{Queue, queue_msg_size}
use multithreaded_chat_appli.Service.{client_request}
use multithreaded_chat_appli.Delivery.Survive.{stored}
use multithreaded_chat_appli.Client.Node.Heard.{stored-heard, cstring-append_zero}
use multithreaded_chat_appli.Client.Program.{
  Event, turn, Runs, stay, go, boot, Datagram, Program, Turn, done, init_socket,
}
use multithreaded_chat_appli.Client.Program.Lines.{IsTyped}
use multithreaded_chat_appli.Client.Program.Sends.{HasLines, IsTidy, Sends, turn-IsTidy}

-- A packet of `conn$ ` and a name, if any.
abbrev pub Requests : {W : Type 0} → Turn W → Type 0
Requests (done p (d ∷ sent)) =
    (name : Text) × (d.bytes ≡ (text "conn$ " ++ name) ++ (0 ∷ []))
    × (0 < length name)
    × (sent ≡ [])
Requests _ = Unit

-- A packet of a line, that the server's listener and queue read back.
abbrev pub IsHeard : {W : Type 0} → Program W → List ℕ → List Datagram → Type 0
IsHeard p stack [] = Unit
IsHeard p stack (d ∷ sent) =
    (m : Text) × IsTyped m
    × (d ≡ record { to = p.server_addr; bytes = m ++ (0 ∷ []) })
    × (sent ≡ [])
    × (stored (client_request d.bytes stack) ≡ take (queue_msg_size - 1) m)

module _ {W : Type 0} (os : Os W) where
  -- The server's queue reads a text of at most its size back.
  typed_heard :
      (m : Text) (stack : List ℕ)
      → IsTyped m
      → stored (client_request (m ++ (0 ∷ [])) stack) ≡ take (queue_msg_size - 1) m
  typed_heard m stack t =
      stored-heard m [] stack (omega (arith, length-append m (0 ∷ []), t.is_line.short))
      ∙ ap (take (queue_msg_size - 1))
          (sym (cstring-append_zero m []) ∙ cstring-append m [] t.is_line.plain)

  Sends-IsHeard :
      (p : Program W) (sent : List Datagram) (stack : List ℕ) → Sends p sent → IsHeard p stack sent
  Sends-IsHeard p [] stack s = tt
  Sends-IsHeard p (d ∷ sent) stack (inl none_sent) = absurd cc
  Sends-IsHeard p (d ∷ sent) stack (inr (m, t, one)) =
      let first : d ≡ record { to = p.server_addr; bytes = m ++ (0 ∷ []) } = cc in
      let last : sent ≡ [] = cc in
      (
        m,
        t,
        first,
        last,
        ap (λ (e : Datagram). stored (client_request e.bytes stack)) first ∙ typed_heard m stack t,
      )

  module _ (memory : Queue) (name : Text) (addr : SockaddrIn) (stdin : Text) (w : W) where
    boot-HasLines : HasLines (boot os memory name addr stdin w)
    unfolding boot init_socket
    boot-HasLines = (tt, tt)

    reached-HasLines : {p : Program W} → Runs os (boot os memory name addr stdin w) p → HasLines p
    reached-HasLines stay = boot-HasLines
    reached-HasLines (go {q} runs e h) =
        (subst IsTidy h (turn-IsTidy os q (reached-HasLines runs) e)).0

    module _ {p : Program W} (runs : Runs os (boot os memory name addr stdin w) p) where
      -- In every state that the client's threads reach, a step sends nothing, or one packet to the
      -- server's address: a text of less than 1024 bytes without NUL and line break, and its
      -- terminator, of which the server's listener and queue read just the first 511 bytes back,
      -- whatever its buffer held before.
      pub turn-IsHeard :
          (e : Event) {q : Program W} {sent : List Datagram} (stack : List ℕ)
          → turn os p e ≡ done q sent
          → IsHeard q stack sent
      turn-IsHeard e {q} {sent} stack h =
          Sends-IsHeard q sent stack (subst IsTidy h (turn-IsTidy os p (reached-HasLines runs) e)).1
