-- ===== src/Channel/Input.antt =====
-- Reception: `gdb_if_getchar` and `gdb_if_getchar_to` of class `GDB_client` in main/gdb_if.cpp. What
-- `recv` returns comes from the environment: the chunks that its next calls store, an empty one
-- where it returns 0 or an error.
use blackmagic_espidf.Base.{
  ℕ, ◌+◌, Bool, List, [], ◌∷◌, ◌++◌, length, get_or, drop, leb, ltb, if◌then◌else◌,
}

abbrev pub buffer_length : ℕ
buffer_length = 256

-- `buffer`, `buffer_index` and `buffer_size`.
pub record Reader : Type 0 where
  pub buffer : List ℕ
  pub buffer_index : ℕ
  pub buffer_size : ℕ

pub data Answer : Type 0 where
  got : ℕ → Reader → List (List ℕ) → Answer
  -- `destroy`: the task is deleted.
  destroyed : List (List ℕ) → Answer
  -- `recv` has not returned.
  blocked : Answer

-- `recv(sock, buffer, BUFFER_SIZE, 0)`: the front of the array is overwritten.
abbrev pub fill : List ℕ → List ℕ → List ℕ
fill chunk buffer = chunk ++ drop (length chunk) buffer

-- `buffer[buffer_index++]`.
abbrev pub take_char : Reader → List (List ℕ) → Answer
take_char r env =
    got (get_or r.buffer r.buffer_index 0) (record r { buffer_index = r.buffer_index + 1 }) env

abbrev pub receive : Reader → List (List ℕ) → Answer
receive r [] = blocked
receive r ([] ∷ env) = destroyed env
receive r ((c ∷ cs) ∷ env) =
    take_char
      (record { buffer = fill (c ∷ cs) r.buffer; buffer_index = 0; buffer_size = length (c ∷ cs) })
      env

unfoldable pub getchar : Reader → List (List ℕ) → Answer
getchar r env = if leb r.buffer_size r.buffer_index then receive r env else take_char r env

-- `gdb_if_getchar_to`; `ready` says that `select` returned a positive number within the timeout.
unfoldable pub getchar_to : Bool → Reader → List (List ℕ) → Answer
unfolding getchar
getchar_to ready r env =
    if ltb r.buffer_index r.buffer_size
    then take_char r env
    else if ready
    then getchar r env
    else got 0xFF r env
