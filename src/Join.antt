-- ===== src/Join.antt =====
-- server_types.h and client_types.h: the two functions that put the words of a command back into
-- one text.
pub mod Unwords
pub mod Laws
pub mod Spans
use multithreaded_chat_appli.Base.{
  Bool, List, Option, Text, [], drop, false, if◌then◌else◌, length, ltb, none, not, some, true, ℕ,
  ◌&&◌, ◌++◌, ◌+◌, ◌-◌, ◌>>=◌, ◌∷◌,
}
use multithreaded_chat_appli.CString.{space}

-- The loop of `join_args` over the slots from `start_index` on, with the text so far and whether
-- no word was added yet. `current_len` is the length of that text.
unfoldable pub join_args_from : List Text → Text → Bool → ℕ → Text
join_args_from [] result first max_len = result
join_args_from ([] ∷ args) result first max_len = result
join_args_from ((c ∷ arg) ∷ args) result first max_len =
    let spaced =
      if not first && ltb (length result) (max_len - 1) then result ++ (space ∷ []) else result in
    let rest = join_args_from args (spaced ++ (c ∷ arg)) false max_len in
    if ltb (length spaced + length (c ∷ arg)) (max_len - 1) then rest else spaced

unfoldable pub join_args : List Text → ℕ → ℕ → Text
join_args args start_index max_len = join_args_from (drop start_index args) [] true max_len

-- The `static char result[300]` of `join`.
abbrev pub join_size : ℕ
join_size = 300

-- `strcat` onto `result`: `none` for a write past its end.
unfoldable pub append_result : Text → Text → Option Text
append_result result s =
    if ltb (length result + length s) join_size then some (result ++ s) else none

-- The loop of `join` over the slots from `arr[i]` on. It looks at `arr[i]`, and behind a word at
-- `arr[i + 1]`: `none` for a read past the last slot, and for a write past the end of `result`.
unfoldable pub join_from : List Text → Text → Option Text
join_from [] result = none
join_from ([] ∷ arr) result = some result
join_from ((c ∷ arg) ∷ []) result = none
join_from ((c ∷ arg) ∷ [] ∷ arr) result = do
  r ← append_result result (c ∷ arg)
  join_from ([] ∷ arr) r
join_from ((c ∷ arg) ∷ (d ∷ arg') ∷ arr) result = do
  r ← append_result result (c ∷ arg)
  r' ← append_result r (space ∷ [])
  join_from ((d ∷ arg') ∷ arr) r'

unfoldable pub join : List Text → Option Text
unfolding join_from append_result
join arr = join_from arr []
