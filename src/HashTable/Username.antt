-- ===== src/HashTable/Username.antt =====
-- `extract_username` finds the sender of a line of chat.
use multithreaded_chat_appli.Base.{
  ==_iff, All, Text, [], arith, length, refl, some, take, ℕ, ◌++◌, ◌<◌, ◌∷◌, ◌≡◌, ◌≢◌,
}
use multithreaded_chat_appli.HashTable.{colon_at, extract_username}

-- A name that a line of chat can show: it has no `:`, and fits with its NUL.
pub record IsSender (name : Text) (max_len : ℕ) : Type 0 where
  pub letters : All (λ c. c ≢ b':') name
  pub some_letter : 0 < length name
  pub fits : length name < max_len

colon_at-append :
    (name rest : Text)
    → All (λ c. c ≢ b':') name
    → colon_at (name ++ (b':' ∷ rest)) ≡ some (length name)
unfolding colon_at
colon_at-append [] rest h = refl
colon_at-append (c ∷ name) rest h = ground (arith, colon_at-append name rest h.1, ==_iff c b':')

take-length-append : (xs ys : Text) → take (length xs) (xs ++ ys) ≡ xs
take-length-append [] ys = refl
take-length-append (x ∷ xs) ys = ground (arith, take-length-append xs ys)

-- The name in front of the first `:` is the sender, where it has no `:` and fits the buffer.
pub extract_username-append :
    (name rest : Text) (max_len : ℕ)
    → IsSender name max_len
    → extract_username (name ++ (b':' ∷ rest)) max_len ≡ name
unfolding extract_username
extract_username-append name rest max_len h =
    rw (colon_at-append name rest h.letters, extract_username)
      (ground (arith, take-length-append name (b':' ∷ rest), h.some_letter, h.fits))
