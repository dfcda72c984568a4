-- ===== src/Server/Phases/Twice.antt =====
-- `disconnect`, with another one in between.
use multithreaded_chat_appli.Base.{
  ==_iff, List, ap, arith, if◌then◌else◌, none, refl, some, ℕ, ◌==◌, ◌>>=◌, ◌∙◌, ◌∷◌, ◌≡◌,
}
use multithreaded_chat_appli.ClientList.{
  ClientList, client_at, remove_client_from_list, unlink_node, write,
}
use multithreaded_chat_appli.ClientList.Chain.{Item, find_item}
use multithreaded_chat_appli.ClientList.Refine.{Represents, from, find_client_by_address-find_item}
use multithreaded_chat_appli.ClientList.Remove.{remove_first_node}
use multithreaded_chat_appli.Server.Phases.Interleaved.{write_here}
use multithreaded_chat_appli.Server.{Server}
use multithreaded_chat_appli.Server.Phases.Cuts.{disconnect_begin, disconnect_remove}

-- The removal where there is a node to compare with.
pub named_by :
    (s : Server) (p h : ℕ)
    → s.clients.head ≡ some h
    → disconnect_remove s p ≡ do
      client ← client_at s.clients (some p)
      removed ← remove_client_from_list s.clients client.client_name
      some (removed.0, record s { clients = removed.1 })
unfolding disconnect_remove
named_by s p h e = rw e refl

found_first : (x : Item) (xs : List Item) → find_item (from x.1.client_address) (x ∷ xs) ≡ some x.0
found_first x xs = ground (arith, ==_iff x.1.client_address x.1.client_address)

reads_first :
    (s : Server) (x : Item) (xs : List Item)
    → Represents s.clients (x ∷ xs)
    → client_at s.clients (some x.0) ≡ some x.1
unfolding client_at
reads_first s x xs r = rw (r.linked.0, client_at)

-- A node that was freed, behind a search, gives no name to remove by.
freed_name :
    (s : Server) (p h : ℕ)
    → s.clients.nodes p ≡ none
    → s.clients.head ≡ some h
    → disconnect_remove s p ≡ none
unfolding disconnect_remove client_at
freed_name s p h freed some_head = rw some_head (rw freed)

-- Two `disconn` of the first client of a well-linked list that holds another one both find it;
-- when both have found it before either goes on, the first removes it, and the second reads its
-- name in the freed node.
pub disconnect_twice :
    (s : Server) (x y : Item) (ys : List Item)
    → Represents s.clients (x ∷ y ∷ ys)
    → (disconnect_begin s x.1.client_address ≡ some (some x.0))
      × ((s' : Server) × (disconnect_remove s x.0 ≡ some (some x.1.client_address, s'))
          × (disconnect_remove s' x.0 ≡ none))
unfolding disconnect_begin disconnect_remove client_at unlink_node
disconnect_twice s x y ys r =
    let freed = write s.clients.nodes x.0 none in
    let l' : ClientList = record s.clients {
      nodes = freed;
      head = some y.0;
      tail = elim s.clients.tail [ none ↦ none | some t ↦ if t == x.0 then none else some t ];
    } in
    (
      find_client_by_address-find_item s.clients (x ∷ y ∷ ys) r x.1.client_address
          ∙ ap some (found_first x (y ∷ ys)),
      (
        record s { clients = l' },
        named_by s x.0 x.0 r.head
            ∙ rw (reads_first s x (y ∷ ys) r) (rw (remove_first_node s.clients x (y ∷ ys) r)),
        freed_name (record s { clients = l' }) x.0 y.0 (write_here s.clients.nodes x.0 none) refl,
      ),
    )
