-- ===== src/ClientList/Refine.antt =====
-- The operations on the linked list do what their list counterparts say, and never read through a
-- NULL or freed pointer.
use multithreaded_chat_appli.Base.{
  All, All-append, Bool, List, Option, Text, [], append-nil, arith, length, length-append, none,
  refl, same, some, suc, sym, ℕ, ◌++◌, ◌<◌, ◌==◌, ◌∙◌, ◌∷◌, ◌≡◌, ◌≤◌,
}
use multithreaded_chat_appli.Queue.{Addr}
use multithreaded_chat_appli.ClientList.{
  Client, ClientNode, ClientList, write, no_clients, find_client, find_client_by_address,
  new_client, link_tail, add_client_to_list,
}
use multithreaded_chat_appli.ClientList.Chain.{
  Item, first, last, Linked, Apart, Distinct, find_item, walk-find_item, Linked-write, set_next,
}

abbrev pub Below : ℕ → Item → Type 0
Below n x = x.0 < n

-- `l` is the linked list of the nodes `xs`: `head` is the first node, `tail` the last, no node
-- stands twice, and every address is an allocated one.
pub record Represents (l : ClientList) (xs : List Item) : Type 0 where
  pub linked : Linked l.nodes xs
  pub head : l.head ≡ first xs
  pub tail : l.tail ≡ last xs
  pub distinct : Distinct xs
  pub below : All (Below l.fresh) xs
  pub enough : length xs ≤ l.fresh

pub no_clients-Represents : Represents no_clients []
no_clients-Represents = record {
  linked = tt;
  head = refl;
  tail = refl;
  distinct = tt;
  below = tt;
  enough = omega arith;
}

abbrev pub named : Text → Client → Bool
named who c = same c.client_name who

abbrev pub from : Addr → Client → Bool
from addr c = c.client_address == addr

module _ (l : ClientList) (xs : List Item) (r : Represents l xs) where
  -- On a well-linked list `find_client` ends and gives the first node with the name, or NULL.
  pub find_client-find_item : (who : Text) → find_client l who ≡ some (find_item (named who) xs)
  unfolding find_client
  find_client-find_item who =
      rw r.head (walk-find_item l.nodes (named who) l.fresh xs r.linked r.enough)

  -- On a well-linked list `find_client_by_address` ends and gives the first node with the address,
  -- or NULL.
  pub find_client_by_address-find_item :
      (addr : Addr) → find_client_by_address l addr ≡ some (find_item (from addr) xs)
  unfolding find_client_by_address
  find_client_by_address-find_item addr =
      rw r.head (walk-find_item l.nodes (from addr) l.fresh xs r.linked r.enough)

-- Addresses below `n` are apart from `n`, and below whatever comes above.
Below-Apart : (n : ℕ) (xs : List Item) → All (Below n) xs → All (Apart n) xs
Below-Apart n [] h = tt
Below-Apart n (x ∷ xs) h = (omega (arith, h.0), Below-Apart n xs h.1)

Below-suc : (n : ℕ) (xs : List Item) → All (Below n) xs → All (Below (suc n)) xs
Below-suc n [] h = tt
Below-suc n (x ∷ xs) h = (omega (arith, h.0), Below-suc n xs h.1)

Distinct-snoc :
    (xs : List Item) (x : Item) → Distinct xs → All (Apart x.0) xs → Distinct (xs ++ (x ∷ []))
Distinct-snoc [] x d a = (tt, tt)
Distinct-snoc (y ∷ xs) x d a =
    (All-append (Apart y.0) xs (x ∷ []) d.0 (λ e. a.0 (sym e), tt), Distinct-snoc xs x d.1 a.1)

pub last-snoc : (xs : List Item) (x : Item) → last (xs ++ (x ∷ [])) ≡ some x.0
last-snoc [] x = refl
last-snoc (y ∷ xs) x = rw (last-snoc xs x)

abbrev with_node : ClientList → Client → ℕ → Option ClientNode
with_node l c = write l.nodes l.fresh (some (record { next = none; client = c }))

add_client_to_list_eq :
    (l : ClientList) (addr : Addr) (name : Text) (now h t : ℕ) (m : ClientNode)
    → l.head ≡ some h
    → l.tail ≡ some t
    → with_node l (new_client addr name now) t ≡ some m
    → add_client_to_list l addr name now
      ≡ some (record l {
        nodes =
            write
              (with_node l (new_client addr name now))
              t
              (some (record m { next = some l.fresh }));
        fresh = suc l.fresh;
        tail = some l.fresh;
      })
unfolding add_client_to_list
add_client_to_list_eq l addr name now h t m eh et em = ground arith

-- On a well-linked list `add_client_to_list` puts the new client behind all others, and the list
-- stays well linked.
pub add_client_to_list_refines :
    (l : ClientList) (xs : List Item) (addr : Addr) (name : Text) (now : ℕ)
    → Represents l xs
    → (l' : ClientList) × (add_client_to_list l addr name now ≡ some l')
      × Represents l' (xs ++ ((l.fresh, new_client addr name now) ∷ []))
unfolding add_client_to_list link_tail
add_client_to_list_refines l [] addr name now r = (
  record {
    nodes =
        write l.nodes l.fresh (some (record { next = none; client = new_client addr name now }));
    fresh = suc l.fresh;
    head = some l.fresh;
    tail = some l.fresh;
  },
  rw r.head,
  record {
    linked = (ground arith, tt);
    head = refl;
    tail = refl;
    distinct = (tt, tt);
    below = (omega arith, tt);
    enough = omega (arith);
  },
)
add_client_to_list_refines l (x ∷ xs) addr name now r =
    let p = l.fresh in
    let new : ClientNode = record { next = none; client = new_client addr name now } in
    let nodes = write l.nodes p (some new) in
    let apart = Below-Apart p (x ∷ xs) r.below in
    let (t, m, at_end, at_t, linked, _) =
      set_next nodes x xs [] ((p, new.client) ∷ [])
        (rw append-nil (Linked-write l.nodes p (some new) (x ∷ xs) apart r.linked))
        (Distinct-snoc (x ∷ xs) (p, new.client) r.distinct apart) (ground arith, tt) in
    (
      record l {
        nodes = write nodes t (some (record m { next = some p }));
        fresh = suc p;
        tail = some p;
      },
      add_client_to_list_eq l addr name now x.0 t m r.head (r.tail ∙ at_end) at_t,
      record {
        linked = linked;
        head = r.head;
        tail = sym (last-snoc (x ∷ xs) (p, new.client));
        distinct = Distinct-snoc (x ∷ xs) (p, new.client) r.distinct apart;
        below =
            All-append (Below (suc p)) (x ∷ xs) _ (Below-suc p (x ∷ xs) r.below) (omega arith, tt);
        enough = rw length-append (omega (arith, r.enough));
      },
    )
