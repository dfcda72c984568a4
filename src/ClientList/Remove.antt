-- ===== src/ClientList/Remove.antt =====
-- `remove_client_from_list`: the first client of that name leaves the list, and `head` and `tail`
-- stay the two ends.
use mathlib.Core.Path.{subst}
use multithreaded_chat_appli.Base.{
  Bool-cases, List, Option, Text, [], ap, append_assoc, arith, false, inl, inr, length, none, refl,
  same_iff, some, suc, sym, true, zero, ℕ, ◌++◌, ◌∙◌, ◌∷◌, ◌≡◌, ◌≤◌,
}
use multithreaded_chat_appli.Queue.{Addr}
use multithreaded_chat_appli.ClientList.{
  ClientList, unlink_node, remove_from, remove_client_from_list,
}
use multithreaded_chat_appli.ClientList.Chain.{Item, first, last}
use multithreaded_chat_appli.ClientList.Refine.{Represents, named, last-snoc}
use multithreaded_chat_appli.ClientList.Unlink.{node, Linked-right, unlink_refines}

-- The list without its first client of that name, and that client's address.
abbrev pub remove_first : Text → List Item → List Item
remove_first name [] = []
remove_first name (x ∷ xs) = elim (named name x.1) [ true ↦ xs | false ↦ x ∷ remove_first name xs ]

abbrev pub address_of : Text → List Item → Option Addr
address_of name [] = none
address_of name (x ∷ xs) = elim (named name x.1) [
  | true ↦ some x.1.client_address
  | false ↦ address_of name xs
]

-- One round of the loop.
module _ (l : ClientList) (name : Text) (fuel : ℕ) (before : Option ℕ) (x : Item)
    (xs : List Item) where
  remove_from_found :
      l.nodes x.0 ≡ some (node l x xs)
      → named name x.1 ≡ true
      → remove_from l name (suc fuel) before (some x.0) ≡ unlink_node l before x.0 (node l x xs)
  unfolding remove_from
  remove_from_found e yes_x = ground arith

  remove_from_next :
      l.nodes x.0 ≡ some (node l x xs)
      → named name x.1 ≡ false
      → remove_from l name (suc fuel) before (some x.0)
        ≡ remove_from l name fuel (some x.0) (first xs)
  unfolding remove_from
  remove_from_next e no_x = ground arith

  address_of_found : named name x.1 ≡ true → address_of name (x ∷ xs) ≡ some x.1.client_address
  address_of_found e = ground arith

  address_of_next : named name x.1 ≡ false → address_of name (x ∷ xs) ≡ address_of name xs
  address_of_next e = ground arith

  remove_first_found : named name x.1 ≡ true → remove_first name (x ∷ xs) ≡ xs
  remove_first_found e = ground arith

  remove_first_next : named name x.1 ≡ false → remove_first name (x ∷ xs) ≡ x ∷ remove_first name xs
  remove_first_next e = ground arith

abbrev Removed : ClientList → Text → ℕ → List Item → List Item → Type 0
Removed l name fuel pre xs =
    (l' : ClientList) × (remove_from l name fuel (last pre) (first xs)
      ≡ some (address_of name xs, l'))
    × Represents l' (pre ++ remove_first name xs)

remove_from_refines :
    (l : ClientList) (name : Text) (fuel : ℕ) (pre xs : List Item)
    → Represents l (pre ++ xs)
    → length xs ≤ fuel
    → Removed l name fuel pre xs
unfolding remove_from
remove_from_refines l name fuel pre [] r f = (l, refl, r)
remove_from_refines l name zero pre (x ∷ xs) r f = absurd (omega arith)
remove_from_refines l name (suc fuel) pre (x ∷ xs) r f = elim (Bool-cases (named name x.1)) [
  | inl found ↦
      let (l', e, r') = unlink_refines l x xs pre r in
      (
        l',
        remove_from_found l name fuel (last pre) x xs at_x found
            ∙ e
            ∙ ap
                (λ (a : Option Addr). let o : Option (Option Addr × ClientList) = some (a, l') in o)
                (sym (address_of_found l name fuel (last pre) x xs found)),
        subst (λ (ys : List Item). Represents l' (pre ++ ys))
            (sym (remove_first_found l name fuel (last pre) x xs found)) r',
      )
  | inr other ↦
      let (l', e, r') =
        remove_from_refines l name fuel (pre ++ (x ∷ [])) xs
          (subst (Represents l) (sym (append_assoc pre (x ∷ []) xs)) r) (omega arith) in
      (
        l',
        remove_from_next l name fuel (last pre) x xs at_x other
            ∙ ap (λ (b : Option ℕ). remove_from l name fuel b (first xs)) (sym (last-snoc pre x))
            ∙ e
            ∙ ap
                (λ (a : Option Addr). let o : Option (Option Addr × ClientList) = some (a, l') in o)
                (sym (address_of_next l name fuel (last pre) x xs other)),
        subst (Represents l')
            (append_assoc pre (x ∷ []) (remove_first name xs)
              ∙ ap (λ (ys : List Item). pre ++ ys)
                  (sym (remove_first_next l name fuel (last pre) x xs other)))
            r',
      )
]
  where
    at_x : l.nodes x.0 ≡ some (node l x xs)
    at_x = (Linked-right x xs l.nodes pre r.linked).0

-- On a well-linked list `remove_client_from_list` takes the first client of that name out and
-- returns its address, or returns NULL and leaves the list, and the list stays well linked, `head`
-- and `tail` included.
pub remove_client_from_list_refines :
    (l : ClientList) (xs : List Item) (name : Text)
    → Represents l xs
    → (l' : ClientList) × (remove_client_from_list l name ≡ some (address_of name xs, l'))
      × Represents l' (remove_first name xs)
unfolding remove_client_from_list
remove_client_from_list_refines l xs name r =
    let (l', e, r') = remove_from_refines l name l.fresh [] xs r r.enough in
    (l', ap (remove_from l name l.fresh none) r.head ∙ e, r')

-- The first client goes by its own name: its node is taken out in front of the others.
pub remove_first_node :
    (l : ClientList) (x : Item) (xs : List Item)
    → Represents l (x ∷ xs)
    → remove_client_from_list l x.1.client_name ≡ unlink_node l none x.0 (node l x xs)
unfolding remove_client_from_list
remove_first_node l x xs r =
    ap (remove_from l x.1.client_name l.fresh none) r.head ∙ with_fuel l.fresh r.enough
  where
    with_fuel :
        (fuel : ℕ)
        → suc (length xs) ≤ fuel
        → remove_from l x.1.client_name fuel none (some x.0) ≡ unlink_node l none x.0 (node l x xs)
    with_fuel zero h = absurd (omega arith)
    with_fuel (suc fuel) h =
        remove_from_found l x.1.client_name fuel none x xs r.linked.0
          ((same_iff x.1.client_name x.1.client_name).1 refl)
