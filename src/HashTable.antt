-- ===== src/HashTable.antt =====
-- custom_hash_table.h: the set of muted names, a table of chains, and the name in front of a
-- message's colon. A chain is the list of its keys, first node first.
pub mod Laws
pub mod Reference
pub mod Username
use multithreaded_chat_appli.Base.{
  Bool, List, Option, Text, [], false, get_or, if◌then◌else◌, ltb, none, replicate, same, set, some,
  suc, take, true, ℕ, ◌%◌, ◌&&◌, ◌*◌, ◌+◌, ◌-◌, ◌==◌, ◌^◌, ◌∷◌,
}

abbrev pub table_size : ℕ
table_size = 100

-- `hash_node_t *table[TABLE_SIZE]`
abbrev pub Table : Type 0
Table = List (List Text)

-- What a `char`, which is signed, adds to an `unsigned long`.
abbrev pub char_to_ulong : ℕ → ℕ
char_to_ulong c = if ltb c 128 then c else 2 ^ 64 - 256 + c

-- The loop of `hash`: `((hash_val << 5) + hash_val) + c` in 64 bits.
unfoldable pub hash_from : ℕ → Text → ℕ
hash_from hash_val [] = hash_val
hash_from hash_val (c ∷ key) =
    hash_from ((hash_val * 2 ^ 5 % 2 ^ 64 + hash_val + char_to_ulong c) % 2 ^ 64) key

unfoldable pub hash : Text → ℕ
hash key = hash_from 5381 key % table_size

-- The loop of `insert` and `contains` over one chain.
unfoldable pub find_key : List Text → Text → Bool
find_key [] key = false
find_key (k ∷ chain) key = if same k key then true else find_key chain key

unfoldable pub insert : Table → Text → Table
insert table key =
    let idx = hash key in
    let chain = get_or table idx [] in
    if find_key chain key then table else set table idx (key ∷ chain)

unfoldable pub contains : Table → Text → Bool
contains table key = find_key (get_or table (hash key) []) key

-- The loop of `remove_key`: it stops at the first node with the key.
unfoldable pub unlink : List Text → Text → List Text
unlink [] key = []
unlink (k ∷ chain) key = if same k key then chain else k ∷ unlink chain key

unfoldable pub remove_key : Table → Text → Table
remove_key table key = let idx = hash key in set table idx (unlink (get_or table idx []) key)

-- The number of bytes before the first `:`, if there is one.
unfoldable pub colon_at : Text → Option ℕ
colon_at [] = none
colon_at (c ∷ message) =
    let rest = colon_at message in
    if c == b':' then some 0 else elim rest [ none ↦ none | some n ↦ some (suc n) ]

unfoldable pub extract_username : Text → ℕ → Text
extract_username message max_len = elim (colon_at message) [
  | none ↦ []
  | some len ↦ if ltb 0 len && ltb len max_len then take len message else []
]

-- `setup_client`: every chain is empty.
abbrev pub empty_table : Table
empty_table = replicate table_size []
