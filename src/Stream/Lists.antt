-- ===== src/Stream/Lists.antt =====
-- The loops by which the structures of libserver/network/command/proto write and read their
-- vectors and arrays.
use alicia_server.Common.{ℕ, zero, suc, List, [], ◌∷◌, length}
use alicia_server.Stream.{Put, Get, skip, ◌>>◌, ◌>>=◌, pure}
use alicia_server.Stream.Words.{write_word, read_u8, cast}

module _ {A : Type 0} where
  unfoldable pub write_all : (A → Put) → List A → Put
  write_all w [] = skip
  write_all w (x ∷ xs) = w x >> write_all w xs

  unfoldable pub read_times : ℕ → Get A → Get (List A)
  read_times zero g = pure []
  read_times (suc n) g = g >>= λ x. read_times n g >>= λ xs. pure (x ∷ xs)

  -- The number of elements, cut to a uint8_t, and the elements.
  unfoldable pub write_counted : (A → Put) → List A → Put
  write_counted w xs = write_word (cast 1 (length xs)) >> write_all w xs

  -- `resize` to the number read, and each element.
  unfoldable pub read_counted : Get A → Get (List A)
  read_counted g = read_u8 >>= λ n. read_times n.value g
