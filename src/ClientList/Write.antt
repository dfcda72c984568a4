-- ===== src/ClientList/Write.antt =====
-- A write to the payload of any node through a pointer that is kept.
use mathlib.Core.Path.{subst}
use multithreaded_chat_appli.Base.{
  ==_iff, All, Bool-cases, List, Option, Option-cases, [], ap, arith, eq_of_some, if◌then◌else◌,
  inl, inr, length, refl, some, sym, ℕ, ◌<◌, ◌==◌, ◌∙◌, ◌∷◌, ◌≡◌, ◌≢◌,
}
use multithreaded_chat_appli.ClientList.{Client, ClientNode, ClientList, write, update_at}
use multithreaded_chat_appli.ClientList.Chain.{Item, first, last, Linked, Distinct}
use multithreaded_chat_appli.ClientList.Refine.{Represents}

module _ (p : ℕ) (f : Client → Client) where
  abbrev pub change_at : List Item → List Item
  change_at [] = []
  change_at (x ∷ xs) = (x.0, if x.0 == p then f x.1 else x.1) ∷ change_at xs

  first-change_at : (xs : List Item) → first (change_at xs) ≡ first xs
  first-change_at [] = refl
  first-change_at (x ∷ xs) = refl

  last-change_at : (xs : List Item) → last (change_at xs) ≡ last xs
  last-change_at [] = refl
  last-change_at (x ∷ xs) = rw (last-change_at xs)

  length-change_at : (xs : List Item) → length (change_at xs) ≡ length xs
  length-change_at [] = refl
  length-change_at (x ∷ xs) = omega (arith, length-change_at xs)

  All-change_at :
      (P : ℕ → Type 0) (xs : List Item) → All (λ x. P x.0) xs → All (λ x. P x.0) (change_at xs)
  All-change_at P [] h = tt
  All-change_at P (x ∷ xs) h = (h.0, All-change_at P xs h.1)

  Distinct-change_at : (xs : List Item) → Distinct xs → Distinct (change_at xs)
  Distinct-change_at [] d = tt
  Distinct-change_at (x ∷ xs) d = (All-change_at (λ q. q ≢ x.0) xs d.0, Distinct-change_at xs d.1)

  module _ (nodes : ℕ → Option ClientNode) (m : ClientNode) (at_p : nodes p ≡ some m) where
    written_node :
        (x : Item) (n : Option ℕ)
        → nodes x.0 ≡ some (record { next = n; client = x.1 })
        → write nodes p (some (record m { client = f m.client })) x.0
          ≡ some (record { next = n; client = if x.0 == p then f x.1 else x.1 })
    written_node x n h = elim (Bool-cases (x.0 == p)) [
      | inr e ↦ rw e h
      | inl e ↦
          let here : x.0 ≡ p = (==_iff x.0 p).0 e in
          let same_node : m ≡ record { next = n; client = x.1 } =
            eq_of_some m _ (sym at_p ∙ ap nodes (sym here) ∙ h) in
          rw e (ap (λ (k : ClientNode). some (record k { client = f k.client })) same_node)
    ]

    Linked-change_at :
        (xs : List Item)
        → Linked nodes xs
        → Linked (write nodes p (some (record m { client = f m.client }))) (change_at xs)
    Linked-change_at [] h = tt
    Linked-change_at (x ∷ xs) h = (
      written_node x _
          (h.0 ∙ ap (λ q. some (record { next = q; client = x.1 })) (sym (first-change_at xs))),
      Linked-change_at xs h.1,
    )

  -- The write leaves the list well linked, whether the node stands in it or not; it fails where
  -- the node is freed.
  pub update_at_held :
      (l l' : ClientList) (xs : List Item)
      → Represents l xs
      → update_at l (some p) f ≡ some l'
      → Represents l' (change_at xs)
  unfolding update_at
  update_at_held l l' xs r e = elim (Option-cases (l.nodes p)) [
    | inl n ↦ absurd cc
    | inr (m, at_p) ↦
        let wrote : record l { nodes = write l.nodes p (some (record m { client = f m.client })) }
            ≡ l' =
          cc in
        subst (λ k. Represents k (change_at xs)) wrote
          (record {
            linked = Linked-change_at l.nodes m at_p xs r.linked;
            head = r.head ∙ sym (first-change_at xs);
            tail = r.tail ∙ sym (last-change_at xs);
            distinct = Distinct-change_at xs r.distinct;
            below = All-change_at (λ q. q < l.fresh) xs r.below;
            enough = omega (arith, r.enough, length-change_at xs);
          })
  ]
