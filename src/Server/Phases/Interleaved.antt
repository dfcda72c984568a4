-- ===== src/Server/Phases/Interleaved.antt =====
-- The walk of `say`, with other threads in front of it.
use multithreaded_chat_appli.Base.{
  List, Option, Text, arith, if◌then◌else◌, none, refl, some, suc, text, zero, ℕ, ◌++◌, ◌==◌, ◌∷◌,
  ◌≡◌,
}
use multithreaded_chat_appli.ClientList.{
  ClientNode, ClientList, remove_client_from_list, unlink_node, write,
}
use multithreaded_chat_appli.ClientList.Chain.{Item, first}
use multithreaded_chat_appli.ClientList.Refine.{Represents}
use multithreaded_chat_appli.ClientList.Remove.{remove_first_node}
use multithreaded_chat_appli.Server.{Server, broadcast_from}
use multithreaded_chat_appli.Server.View.{broadcast_from-addresses}
use multithreaded_chat_appli.Server.Handlers.{to_all}
use multithreaded_chat_appli.Server.Phases.{Saying, say_send}

-- Whatever other threads did to the list since a `say` began, if it is well linked and its first
-- node is the one that the `say` took, or both are NULL, the line goes to just the clients that
-- are in the list by then.
pub say_send_lem :
    (s : Server) (ys : List Item) (saying : Saying) (full_message : Text)
    → Represents s.clients ys
    → saying.node ≡ first ys
    → say_send s saying full_message ≡ some (to_all (text "say$ " ++ full_message) ys)
unfolding say_send
say_send_lem s ys saying full_message r e =
    rw (e, broadcast_from-addresses s.clients.nodes s.clients.fresh ys r.linked r.enough)

-- A walk that starts at a freed node.
freed_walk :
    (nodes : ℕ → Option ClientNode) (p fuel : ℕ)
    → nodes p ≡ none
    → broadcast_from nodes fuel (some p) ≡ none
unfolding broadcast_from
freed_walk nodes p zero e = refl
freed_walk nodes p (suc fuel) e = rw (e, broadcast_from)

pub write_here :
    (nodes : ℕ → Option ClientNode) (p : ℕ) (n : Option ClientNode) → write nodes p n p ≡ n
write_here nodes p n = ground arith

-- When the first client of a well-linked list is removed by its name after a `say` took the head
-- of the list and before it sends, the `say` reads a freed node.
pub say_send_freed :
    (s : Server) (x : Item) (xs : List Item) (saying : Saying) (full_message : Text)
    → Represents s.clients (x ∷ xs)
    → saying.node ≡ some x.0
    → (l' : ClientList) × (remove_client_from_list s.clients x.1.client_name
        ≡ some (some x.1.client_address, l'))
      × (say_send (record s { clients = l' }) saying full_message ≡ none)
unfolding unlink_node say_send
say_send_freed s x xs saying full_message r e =
    let freed = write s.clients.nodes x.0 none in
    (
      record s.clients {
        nodes = freed;
        head = first xs;
        tail = elim s.clients.tail [ none ↦ none | some t ↦ if t == x.0 then none else some t ];
      },
      remove_first_node s.clients x xs r,
      rw e (rw (freed_walk freed x.0 s.clients.fresh (write_here s.clients.nodes x.0 none))),
    )
