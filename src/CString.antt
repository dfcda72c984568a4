-- ===== src/CString.antt =====
-- The C library's string functions that queue.h, cmd.h and the types headers call, over memory
-- given as the list of its bytes from the pointer on.
pub mod Words
pub mod Memory
use multithreaded_chat_appli.Base.{
  ℕ, zero, suc, ◌+◌, List, [], ◌∷◌, ◌++◌, Option, none, some, Bool, true, false, ◌==◌,
  if◌then◌else◌, Text, take, drop, get_or, set, replicate,
}

abbrev pub space : ℕ
space = b' '

-- The string that starts at a pointer: the bytes up to the first 0.
unfoldable pub cstring : List ℕ → Text
cstring [] = []
cstring (c ∷ mem) = if c == 0 then [] else c ∷ cstring mem

-- What `strncpy(dst, src, n)` leaves in the `n` bytes of `dst`.
unfoldable pub strncpy : List ℕ → ℕ → List ℕ
strncpy src n = take n (cstring src ++ replicate n 0)

-- `strspn(p, " ")` and `strcspn(p, " ")`
unfoldable pub spaces_at : List ℕ → ℕ
spaces_at [] = 0
spaces_at (c ∷ mem) = if c == space then suc (spaces_at mem) else 0

unfoldable pub word_at : List ℕ → ℕ
word_at [] = 0
word_at (c ∷ mem) = if c == 0 then 0 else if c == space then 0 else suc (word_at mem)

-- What a call of `strtok` gives: the token's offset, the memory, and the offset saved for the next.
abbrev pub Strtok : Type 0
Strtok = Option ℕ × List ℕ × ℕ

-- The end of a token, at `stop`: a space is overwritten, the terminator is not passed.
unfoldable pub end_token : List ℕ → ℕ → ℕ → Strtok
end_token mem start stop =
    if get_or mem stop 0 == 0
    then (some start, mem, stop)
    else (some start, set mem stop 0, stop + 1)

-- `strtok(NULL, " ")` over `mem` with the offset `saved`; `strtok(mem, " ")` is that with 0.
unfoldable pub strtok : List ℕ → ℕ → Strtok
unfolding spaces_at word_at end_token
strtok mem saved =
    let start = saved + spaces_at (drop saved mem) in
    if get_or mem start 0 == 0
    then (none, mem, start)
    else end_token mem start (start + word_at (drop start mem))
