-- ===== src/ClientList/Update.antt =====
-- Writes to the payload of a node: `update_client_activity`, and the rename of a client.
use mathlib.Core.Path.{subst}
use multithreaded_chat_appli.Base.{
  All, Bool, List, Option-cases, [], ap, arith, false, inl, inr, length, none, refl, some, sym,
  true, ℕ, ◌<◌, ◌∙◌, ◌∷◌, ◌≡◌, ◌≢◌,
}
use multithreaded_chat_appli.Queue.{Addr}
use multithreaded_chat_appli.ClientList.{
  Client, ClientNode, ClientList, write, update_at, update_client_activity,
}
use multithreaded_chat_appli.ClientList.Chain.{
  Item, last, Apart, Distinct, find_item, update_first, update_found, first-update_first,
}
use multithreaded_chat_appli.ClientList.Refine.{Represents, from, find_client_by_address-find_item}

module _ (test : Client → Bool) (f : Client → Client) where
  last-update_first : (xs : List Item) → last (update_first test f xs) ≡ last xs
  last-update_first [] = refl
  last-update_first (x ∷ xs) = ground (arith, last-update_first xs)

  length-update_first : (xs : List Item) → length (update_first test f xs) ≡ length xs
  length-update_first [] = refl
  length-update_first (x ∷ xs) = ground (arith, length-update_first xs)

  -- What one step of the update leaves, by the test.
  abbrev step : Item → List Item → List Item → Bool → List Item
  step x xs rest b = elim b [ true ↦ (x.0, f x.1) ∷ xs | false ↦ x ∷ rest ]

  -- What holds of all addresses still does.
  All-step :
      (P : ℕ → Type 0) (x : Item) (xs rest : List Item) (b : Bool)
      → All (λ y. P y.0) (x ∷ xs)
      → All (λ y. P y.0) rest
      → All (λ y. P y.0) (step x xs rest b)
  All-step P x xs rest true h k = h
  All-step P x xs rest false h k = (h.0, k)

  All-update_first :
      (P : ℕ → Type 0) (xs : List Item)
      → All (λ x. P x.0) xs
      → All (λ x. P x.0) (update_first test f xs)
  All-update_first P [] h = tt
  All-update_first P (x ∷ xs) h = All-step P x xs _ (test x.1) h (All-update_first P xs h.1)

  Distinct-step :
      (x : Item) (xs rest : List Item) (b : Bool)
      → Distinct (x ∷ xs)
      → All (Apart x.0) rest
      → Distinct rest
      → Distinct (step x xs rest b)
  Distinct-step x xs rest true d a k = d
  Distinct-step x xs rest false d a k = (a, k)

  Distinct-update_first : (xs : List Item) → Distinct xs → Distinct (update_first test f xs)
  Distinct-update_first [] d = tt
  Distinct-update_first (x ∷ xs) d =
      Distinct-step x xs _ (test x.1) d (All-update_first (λ q. q ≢ x.0) xs d.0)
        (Distinct-update_first xs d.1)

  -- With no client that passes the test nothing changes.
  update_first-none : (xs : List Item) → find_item test xs ≡ none → update_first test f xs ≡ xs
  update_first-none [] e = refl
  update_first-none (x ∷ xs) e = ground (arith, update_first-none xs)

  update_at_eq :
      (l : ClientList) (p : ℕ) (m : ClientNode)
      → l.nodes p ≡ some m
      → update_at l (some p) f
        ≡ some (record l { nodes = write l.nodes p (some (record m { client = f m.client })) })
  unfolding update_at
  update_at_eq l p m e = ground arith

  -- A write through the pointer that a search gave changes the client that it found.
  pub update_at_refines :
      (l : ClientList) (xs : List Item) (p : ℕ)
      → Represents l xs
      → find_item test xs ≡ some p
      → (l' : ClientList) × (update_at l (some p) f ≡ some l')
        × Represents l' (update_first test f xs)
  update_at_refines l xs p r e =
      let (m, at_p, linked, _) = update_found l.nodes test f xs p r.linked r.distinct e in
      (
        record l { nodes = write l.nodes p (some (record m { client = f m.client })) },
        update_at_eq l p m at_p,
        record {
          linked = linked;
          head = r.head ∙ sym (first-update_first test f xs);
          tail = r.tail ∙ sym (last-update_first xs);
          distinct = Distinct-update_first xs r.distinct;
          below = All-update_first (λ q. q < l.fresh) xs r.below;
          enough = omega (arith, r.enough, length-update_first xs);
        },
      )

-- On a well-linked list `update_client_activity` marks the first client with the address as active
-- now, with no ping pending, and changes nothing else; an unknown address changes nothing.
pub update_client_activity_refines :
    (l : ClientList) (xs : List Item) (addr : Addr) (now : ℕ)
    → Represents l xs
    → (l' : ClientList) × (update_client_activity l addr now ≡ some l')
      × Represents l'
          (update_first (from addr) (λ c. record c { last_active = now; ping_sent = 0 }) xs)
unfolding update_client_activity
update_client_activity_refines l xs addr now r = elim (Option-cases (find_item (from addr) xs)) [
  | inl e ↦ (
    l,
    rw (find_client_by_address-find_item l xs r addr ∙ ap some e, update_client_activity),
    subst (Represents l) (sym (update_first-none (from addr) _ xs e)) r,
  )
  | inr (p, e) ↦
      let (l', at_p, r') =
        update_at_refines (from addr) (λ c. record c { last_active = now; ping_sent = 0 }) l xs p r
          e in
      (
        l',
        rw (find_client_by_address-find_item l xs r addr ∙ ap some e, update_client_activity) at_p,
        r',
      )
]
