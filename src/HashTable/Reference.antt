-- ===== src/HashTable/Reference.antt =====
-- The hash as a polynomial in 33, as its independent description.
use multithreaded_chat_appli.Base.{
  Text, [], ap, arith, length, suc, sym, ℕ, ◌%◌, ◌*◌, ◌+◌, ◌^◌, ◌∙◌, ◌∷◌, ◌≡◌,
}
use native.Mathlib.Nat.{pow-suc}
use multithreaded_chat_appli.HashTable.{char_to_ulong, table_size, hash_from, hash}

-- The bytes as digits to the base 33, the last one the lowest.
unfoldable pub digits : Text → ℕ
digits [] = 0
digits (c ∷ key) = char_to_ulong c * 33 ^ length key + digits key

-- One step of the loop, without its shift and its wraps in between.
step_eq :
    (v c : ℕ) → ((v % 2 ^ 64) * 2 ^ 5 % 2 ^ 64 + (v % 2 ^ 64) + c) % 2 ^ 64 ≡ (v * 33 + c) % 2 ^ 64
step_eq v c = omega arith

regroup : (v c p d : ℕ) → (v * 33 + c) * p + d ≡ v * (p * 33) + (c * p + d)
regroup v c p d = omega arith

shifted : (v c n d : ℕ) → (v * 33 + c) * 33 ^ n + d ≡ v * 33 ^ suc n + (c * 33 ^ n + d)
shifted v c n d = regroup v c (33 ^ n) d ∙ ap (λ p. v * p + (c * 33 ^ n + d)) (sym (pow-suc 33 n))

hash_from-digits :
    (v : ℕ) (key : Text) → hash_from (v % 2 ^ 64) key ≡ (v * 33 ^ length key + digits key) % 2 ^ 64
unfolding hash_from digits
hash_from-digits v [] = omega arith
hash_from-digits v (c ∷ key) =
    ap (λ k. hash_from k key) (step_eq v (char_to_ulong c))
    ∙ hash_from-digits (v * 33 + char_to_ulong c) key
    ∙ ap (λ k. k % 2 ^ 64) (shifted v (char_to_ulong c) (length key) (digits key))

-- The hash of a key is the polynomial in 33 of its signed bytes with 5381 in front, modulo 2^64
-- and then the size of the table.
pub hash_eq : (key : Text) → hash key ≡ (5381 * 33 ^ length key + digits key) % 2 ^ 64 % table_size
unfolding hash
hash_eq key = ap (λ k. k % table_size) (hash_from-digits 5381 key)
