-- ===== src/HashTable/Laws.antt =====
-- The table implements a set of names.
use mathlib.Core.Path.{fun_ext}
use multithreaded_chat_appli.Base.{
  All, All-get_or, All-replicate, All-set, Bool, Bool-cases, List, Text, [], ap, arith, false,
  get_or, get_or-set_ne, get_or-set_self, if◌then◌else◌, inl, inr, length, length-set, not, refl,
  same, same_iff, set, true, ℕ, ℕ_discrete, ◌&&◌, ◌<◌, ◌==◌, ◌||◌, ◌∙◌, ◌∷◌, ◌≡◌, ◌≢◌,
}
use multithreaded_chat_appli.HashTable.{
  Table, table_size, hash, find_key, insert, contains, unlink, remove_key, empty_table,
}

-- No key stands twice in a chain.
abbrev pub IsUnique : List Text → Type 0
IsUnique [] = Unit
IsUnique (k ∷ chain) = (find_key chain k ≡ false) × IsUnique chain

pub record IsValid (table : Table) : Type 0 where
  pub room : length table ≡ table_size
  pub unique : All IsUnique table

hash-lt : (key : Text) → hash key < table_size
unfolding hash
hash-lt key = omega arith

same_symm : (a b : Text) → same a b ≡ same b a
same_symm a b = ground (arith, same_iff a b, same_iff b a)

-- Equal keys are found alike.
find_key_congr :
    (chain : List Text) (a b : Text) → same a b ≡ true → find_key chain a ≡ find_key chain b
find_key_congr chain a b e = ap (find_key chain) ((same_iff a b).0 e)

find_key-unlink :
    (chain : List Text) (key j : Text)
    → IsUnique chain
    → find_key (unlink chain key) j ≡ (not (same key j) && find_key chain j)
unfolding find_key unlink
find_key-unlink [] key j h = ground arith
find_key-unlink (k ∷ chain) key j h = ground (
  arith,
  find_key-unlink chain key j h.1,
  same_iff k key,
  same_iff key j,
  same_iff k j,
  find_key_congr chain k j,
)

unlink-IsUnique : (chain : List Text) (key : Text) → IsUnique chain → IsUnique (unlink chain key)
unfolding unlink find_key
unlink-IsUnique [] key h = tt
unlink-IsUnique (k ∷ chain) key h =
    ground (arith, unlink-IsUnique chain key h.1, find_key-unlink chain key k h.1)

same_of_hash_ne : (a b : Text) → hash a ≢ hash b → same a b ≡ false
same_of_hash_ne a b ne = elim (Bool-cases (same a b)) [
  | inl e ↦ absurd (ne (ap hash ((same_iff a b).0 e)))
  | inr e ↦ e
]

module _ (table : Table) (key : Text) (v : IsValid table) where
  abbrev home : List Text
  home = get_or table (hash key) []

  in_table : hash key < length table
  in_table = rw v.room (hash-lt key)

  chain-IsUnique : (i : ℕ) → IsUnique (get_or table i [])
  chain-IsUnique i = All-get_or IsUnique table i [] tt v.unique

  pub insert-IsValid : IsValid (insert table key)
  unfolding insert
  insert-IsValid = elim (Bool-cases (find_key home key)) [
    | inl old ↦ rw old v
    | inr new ↦ rw new (record {
      room = length-set table _ _ ∙ v.room;
      unique = All-set IsUnique table _ (key ∷ home) (new, chain-IsUnique (hash key)) v.unique;
    })
  ]

  pub remove_key-IsValid : IsValid (remove_key table key)
  unfolding remove_key
  remove_key-IsValid = record {
    room = length-set table _ _ ∙ v.room;
    unique =
        All-set IsUnique table _ _ (unlink-IsUnique _ key (chain-IsUnique (hash key))) v.unique;
  }

  -- What a lookup finds behind a write to the home chain of `key`.
  contains-set :
      (chain : List Text) (j : Text)
      → contains (set table (hash key) chain) j
        ≡ (if hash key == hash j then find_key chain j else contains table j)
  unfolding contains
  contains-set chain j = elim (ℕ_discrete (hash key) (hash j)) [
    | yes e ↦ rw (← e, get_or-set_self table (hash key) chain [] in_table) (ground arith)
    | no ne ↦ rw (get_or-set_ne table chain [] ne) (ground arith)
  ]

  contains-home : (j : Text) → hash key ≡ hash j → contains table j ≡ find_key home j
  unfolding contains
  contains-home j e = rw (← e)

  found-insert : (j : Text) → find_key (key ∷ home) j ≡ (same key j || find_key home j)
  unfolding find_key
  found-insert j = ground arith

  -- Behind an insertion exactly the new name and the old ones are in the set.
  pub contains-insert :
      (j : Text) → contains (insert table key) j ≡ (same key j || contains table j)
  unfolding insert
  contains-insert j = elim (Bool-cases (find_key home key)) [
    | inl old ↦ rw old (
        ground
          (arith, contains-home j, same_iff key j, find_key_congr home key j, contains-home key))
    | inr new ↦
        rw (new, contains-set, found-insert)
          (ground (arith, contains-home j, same_of_hash_ne key j))
  ]

  -- Behind a removal exactly the other names are in the set.
  pub contains-remove_key :
      (j : Text) → contains (remove_key table key) j ≡ (not (same key j) && contains table j)
  unfolding remove_key
  contains-remove_key j = rw contains-set (
      rw (find_key-unlink home key j (chain-IsUnique (hash key)))
        (ground (arith, contains-home j, same_of_hash_ne key j)))

pub empty_table-IsValid : IsValid empty_table
empty_table-IsValid = record { room = refl; unique = All-replicate IsUnique table_size [] tt }

-- A call on the set, and a set of names as its characteristic function.
pub data Change : Type 0 where
  add drop_name : Text → Change

abbrev pub apply : Table → Change → Table
apply table (add key) = insert table key
apply table (drop_name key) = remove_key table key

pub apply_all : Table → List Change → Table
apply_all table [] = table
apply_all table (c ∷ cs) = apply_all (apply table c) cs

abbrev pub change_set : (Text → Bool) → Change → Text → Bool
change_set s (add key) j = same key j || s j
change_set s (drop_name key) j = not (same key j) && s j

pub change_set_all : (Text → Bool) → List Change → Text → Bool
change_set_all s [] = s
change_set_all s (c ∷ cs) = change_set_all (change_set s c) cs

apply-IsValid : (table : Table) (c : Change) → IsValid table → IsValid (apply table c)
apply-IsValid table (add key) v = insert-IsValid table key v
apply-IsValid table (drop_name key) v = remove_key-IsValid table key v

contains-apply :
    (table : Table) (c : Change)
    → IsValid table
    → contains (apply table c) ≡ change_set (contains table) c
contains-apply table (add key) v = fun_ext (contains-insert table key v)
contains-apply table (drop_name key) v = fun_ext (contains-remove_key table key v)

-- After any history of insertions and removals on a valid table, the table is valid and answers as
-- the set of names does.
pub apply_all_refines :
    (cs : List Change) (table : Table)
    → IsValid table
    → IsValid (apply_all table cs)
      × (contains (apply_all table cs) ≡ change_set_all (contains table) cs)
unfolding apply_all change_set_all
apply_all_refines [] table v = (v, refl)
apply_all_refines (c ∷ cs) table v =
    let (v', e) = apply_all_refines cs (apply table c) (apply-IsValid table c v) in
    (v', e ∙ ap (λ (s : Text → Bool). change_set_all s cs) (contains-apply table c v))
