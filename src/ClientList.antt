-- ===== src/ClientList.antt =====
-- server_types.h, server_interface.c: the linked list of clients, with the nodes on an explicit
-- heap. A NULL pointer is `none`; an operation that reads through a NULL or a freed pointer gives
-- `none` as its result.
pub mod Chain
pub mod Refine
pub mod Update
pub mod Unlink
pub mod Remove
pub mod Write
use multithreaded_chat_appli.Base.{
  Bool, Option, Text, false, if◌then◌else◌, none, same, some, suc, take, true, zero, ℕ, ◌-◌, ◌==◌,
}
use multithreaded_chat_appli.Queue.{Addr}
use multithreaded_chat_appli.Cmd.{name_size}

-- `client_node_t` without its `next`
pub record Client : Type 0 where
  pub client_address : Addr
  pub client_name : Text
  pub last_active : ℕ
  pub ping_sent : ℕ

pub record ClientNode : Type 0 where
  pub next : Option ℕ
  pub client : Client

-- The nodes by their addresses, the next address that `malloc` gives, and the variables `head`
-- and `tail` of `main`. An address is never given twice, so that a read of a freed node shows.
pub record ClientList : Type 0 where
  pub nodes : ℕ → Option ClientNode
  pub fresh : ℕ
  pub head : Option ℕ
  pub tail : Option ℕ

abbrev pub write : (ℕ → Option ClientNode) → ℕ → Option ClientNode → ℕ → Option ClientNode
write nodes p v q = if q == p then v else nodes q

abbrev pub no_clients : ClientList
no_clients = record { nodes = λ _. none; fresh = 0; head = none; tail = none }

-- The walk of `find_client` and `find_client_by_address`: to the first node that passes the test,
-- or to NULL. The fuel is the number of nodes ever allocated.
unfoldable pub walk : (ℕ → Option ClientNode) → (Client → Bool) → ℕ → Option ℕ → Option (Option ℕ)
walk nodes test fuel none = some none
walk nodes test zero (some p) = none
walk nodes test (suc fuel) (some p) = elim (nodes p) [
  | none ↦ none
  | some n ↦ elim (test n.client) [ true ↦ some (some p) | false ↦ walk nodes test fuel n.next ]
]

unfoldable pub find_client : ClientList → Text → Option (Option ℕ)
find_client l who = walk l.nodes (λ c. same c.client_name who) l.fresh l.head

unfoldable pub find_client_by_address : ClientList → Addr → Option (Option ℕ)
find_client_by_address l address = walk l.nodes (λ c. c.client_address == address) l.fresh l.head

-- `p->...`
unfoldable pub client_at : ClientList → Option ℕ → Option Client
client_at l none = none
client_at l (some p) = elim (l.nodes p) [ none ↦ none | some n ↦ some n.client ]

unfoldable pub new_client : Addr → Text → ℕ → Client
new_client addr name now = record {
  client_address = addr;
  client_name = take (name_size - 1) name;
  last_active = now;
  ping_sent = 0;
}

-- `(*tail)->next = new_node`
unfoldable pub link_tail : (ℕ → Option ClientNode) → Option ℕ → ℕ → Option (ℕ → Option ClientNode)
link_tail nodes none p = none
link_tail nodes (some t) p = elim (nodes t) [
  | none ↦ none
  | some n ↦ some (write nodes t (some (record n { next = some p })))
]

unfoldable pub add_client_to_list : ClientList → Addr → Text → ℕ → Option ClientList
unfolding link_tail
add_client_to_list l addr name now =
    let p = l.fresh in
    let nodes =
      write l.nodes p (some (record { next = none; client = new_client addr name now })) in
    elim l.head [
      | none ↦ some (record { nodes = nodes; fresh = suc p; head = some p; tail = some p })
      | some h ↦ elim (link_tail nodes l.tail p) [
        | none ↦ none
        | some linked ↦ some (record l { nodes = linked; fresh = suc p; tail = some p })
      ]
    ]

-- A write to the payload of a node.
unfoldable pub update_at : ClientList → Option ℕ → (Client → Client) → Option ClientList
update_at l none f = none
update_at l (some p) f = elim (l.nodes p) [
  | none ↦ none
  | some n ↦ some (record l { nodes = write l.nodes p (some (record n { client = f n.client })) })
]

unfoldable pub update_client_activity : ClientList → Addr → ℕ → Option ClientList
update_client_activity l addr now = elim (find_client_by_address l addr) [
  | none ↦ none
  | some none ↦ some l
  | some (some p) ↦ update_at l (some p) (λ c. record c { last_active = now; ping_sent = 0 })
]

-- Taking the node `p` out, behind `last_node`, and freeing it.
unfoldable pub unlink_node :
    ClientList → Option ℕ → ℕ → ClientNode → Option (Option Addr × ClientList)
unlink_node l none p n = some (
  some n.client.client_address,
  record l {
    nodes = write l.nodes p none;
    head = n.next;
    tail = elim l.tail [ none ↦ none | some t ↦ if t == p then none else some t ];
  },
)
unlink_node l (some last) p n = elim (l.nodes last) [
  | none ↦ none
  | some m ↦ some (
    some n.client.client_address,
    record l {
      nodes = write (write l.nodes last (some (record m { next = n.next }))) p none;
      tail = elim l.tail [ none ↦ none | some t ↦ if t == p then some last else some t ];
    },
  )
]

-- The loop of `remove_client_from_list` over `last_node` and `iter`.
unfoldable pub remove_from :
    ClientList → Text → ℕ → Option ℕ → Option ℕ → Option (Option Addr × ClientList)
remove_from l name fuel last none = some (none, l)
remove_from l name zero last (some p) = none
remove_from l name (suc fuel) last (some p) = elim (l.nodes p) [
  | none ↦ none
  | some n ↦ elim (same n.client.client_name name) [
    | true ↦ unlink_node l last p n
    | false ↦ remove_from l name fuel (some p) n.next
  ]
]

-- The address of the removed client (`none` for NULL), and the list behind.
unfoldable pub remove_client_from_list : ClientList → Text → Option (Option Addr × ClientList)
remove_client_from_list l name = remove_from l name l.fresh none l.head
