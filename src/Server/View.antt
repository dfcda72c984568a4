-- ===== src/Server/View.antt =====
-- What the handlers read from the linked list, in terms of the list of its nodes.
use multithreaded_chat_appli.Base.{
  Bool, Bool-cases, List, Option, Option-cases, Text, [], arith, false, inl, inr, length, map, none,
  refl, some, suc, true, zero, ℕ, ◌==◌, ◌∷◌, ◌≡◌, ◌≤◌,
}
use multithreaded_chat_appli.Queue.{Addr}
use multithreaded_chat_appli.ClientList.{Client, ClientNode, ClientList, client_at}
use multithreaded_chat_appli.ClientList.Chain.{Item, first, Linked, find_item}
use multithreaded_chat_appli.ClientList.Refine.{Represents}
use multithreaded_chat_appli.Server.{packet, broadcast_from, broadcast, is_admin}

-- The first client that passes a test.
abbrev pub found : (Client → Bool) → List Item → Option Client
found test [] = none
found test (x ∷ xs) = elim (test x.1) [ true ↦ some x.1 | false ↦ found test xs ]

abbrev pub addresses : List Item → List Addr
addresses [] = []
addresses (x ∷ xs) = x.1.client_address ∷ addresses xs

-- The first client's address.
abbrev pub admin_address : List Item → Option Addr
admin_address [] = none
admin_address (x ∷ xs) = some x.1.client_address

found-none :
    (test : Client → Bool) (xs : List Item) → found test xs ≡ none → find_item test xs ≡ none
found-none test [] e = refl
found-none test (x ∷ xs) e = ground (arith, found-none test xs)

found-node :
    (nodes : ℕ → Option ClientNode) (test : Client → Bool) (xs : List Item) (c : Client)
    → Linked nodes xs
    → found test xs ≡ some c
    → (p : ℕ) × (next : Option ℕ) × (find_item test xs ≡ some p)
      × (nodes p ≡ some (record { next = next; client = c }))
found-node nodes test [] c h e = cc
found-node nodes test (x ∷ xs) c h e = elim (Bool-cases (test x.1)) [
  | inl here ↦ (x.0, first xs, ground arith, ground (arith, h.0))
  | inr there ↦
      let later : found test xs ≡ some c = ground arith in
      let (p, next, at, node) = found-node nodes test xs c h.1 later in
      (p, next, ground arith, node)
]

client_at_eq :
    (l : ClientList) (p : ℕ) (n : ClientNode)
    → l.nodes p ≡ some n
    → client_at l (some p) ≡ some n.client
unfolding client_at
client_at_eq l p n e = ground arith

module _ (l : ClientList) (xs : List Item) (r : Represents l xs) where
  -- The pointer that a search gives reads as the first client that passes the test.
  pub client_at-find_item : (test : Client → Bool) → client_at l (find_item test xs) ≡ found test xs
  unfolding client_at
  client_at-find_item test = elim (Option-cases (found test xs)) [
    | inl e ↦ rw (found-none test xs e, e)
    | inr (c, e) ↦
        let (p, next, at, node) = found-node l.nodes test xs c r.linked e in
        rw (at, e) (client_at_eq l p _ node)
  ]

  pub found-find_item :
      (test : Client → Bool) (c : Client)
      → found test xs ≡ some c
      → (p : ℕ) × (find_item test xs ≡ some p)
  found-find_item test c e =
      let (p, next, at, node) = found-node l.nodes test xs c r.linked e in (p, at)

  pub find_item-none : (test : Client → Bool) → found test xs ≡ none → find_item test xs ≡ none
  find_item-none test e = found-none test xs e

pub broadcast_from-addresses :
    (nodes : ℕ → Option ClientNode) (fuel : ℕ) (xs : List Item)
    → Linked nodes xs
    → length xs ≤ fuel
    → broadcast_from nodes fuel (first xs) ≡ some (addresses xs)
unfolding broadcast_from
broadcast_from-addresses nodes fuel [] h f = refl
broadcast_from-addresses nodes zero (x ∷ xs) h f = absurd (omega arith)
broadcast_from-addresses nodes (suc fuel) (x ∷ xs) h f =
    rw (h.0, broadcast_from) (rw (broadcast_from-addresses nodes fuel xs h.1 (omega arith)))

-- A broadcast sends one packet to every client in the list, in order.
pub broadcast-addresses :
    (l : ClientList) (xs : List Item) (bytes : ℕ) (body : Text)
    → Represents l xs
    → broadcast l bytes body ≡ some (map (packet bytes body) (addresses xs))
unfolding broadcast
broadcast-addresses l xs bytes body r =
    rw (r.head, broadcast_from-addresses l.nodes l.fresh xs r.linked r.enough)

pub is_admin_lem :
    (l : ClientList) (xs : List Item) (addr : Addr)
    → Represents l xs
    → is_admin l addr ≡ some (elim (admin_address xs) [ none ↦ false | some a ↦ a == addr ])
unfolding is_admin client_at
is_admin_lem l [] addr r = rw r.head
is_admin_lem l (x ∷ xs) addr r = rw r.head (rw r.linked.0)
