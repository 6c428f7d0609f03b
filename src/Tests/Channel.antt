-- ===== src/Tests/Channel.antt =====
-- The buffers of a client's connection on concrete streams.
use blackmagic_espidf.Base.{ℕ, ◌≡◌, refl, List, [], ◌∷◌, replicate, arith}
use blackmagic_espidf.Channel.Input.{Reader, getchar}
use blackmagic_espidf.Channel.Stream.{IsValid, stream, Reads, getchar-Reads}

-- One character is left, and the connection has two chunks to come.
abbrev reader : Reader
reader = record { buffer = 7 ∷ 8 ∷ replicate 254 0; buffer_index = 1; buffer_size = 2 }

abbrev spent : Reader
spent = record reader { buffer_index = 2 }

abbrev chunks : List (List ℕ)
chunks = (9 ∷ 10 ∷ []) ∷ (11 ∷ []) ∷ [] ∷ []

reader-IsValid : IsValid reader
reader-IsValid = record { whole = refl; read = omega arith; stored = omega arith }

spent-IsValid : IsValid spent
spent-IsValid = record { whole = refl; read = omega arith; stored = omega arith }

getchar-Reads_example : Reads (getchar spent chunks) (stream spent chunks)
getchar-Reads_example = getchar-Reads spent chunks spent-IsValid (omega arith)

stream_test : stream reader chunks ≡ 8 ∷ 9 ∷ 10 ∷ 11 ∷ []
stream_test = refl
