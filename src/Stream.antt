-- ===== src/Stream.antt =====
-- The byte streams of libserver/util/Stream: a cursor over a buffer that the stream does not own.
-- Sizes are those of buffers in memory, so that `_cursor + size` does not wrap.
pub mod Words
pub mod Strings
pub mod Lists
pub mod Laws
pub mod Codes
pub mod Fields
pub mod Text
pub mod Refinement
pub mod Lines
mod Examples
use alicia_server.Common.{
  ℕ, zero, suc, ◌+◌, ◌≤◌, Option, none, some, List, [], ◌∷◌, ltb, if◌then◌else◌, length, take, drop,
}

-- StreamBase<Storage>; the bytes are numbers.
pub record StreamBase : Type 0 where
  pub storage : List ℕ
  pub cursor : ℕ

abbrev pub SinkStream : Type 0
SinkStream = StreamBase

abbrev pub SourceStream : Type 0
SourceStream = StreamBase

-- What the constructors establish and every operation keeps.
abbrev pub IsWithin : StreamBase → Type 0
IsWithin s = s.cursor ≤ length s.storage

-- `none` is the std::overflow_error.
unfoldable pub seek : ℕ → StreamBase → Option StreamBase
seek cursor s =
    if ltb (length s.storage) cursor
    then none
    else some (record { storage = s.storage; cursor = cursor })

unfoldable pub set_at : ℕ → ℕ → List ℕ → List ℕ
set_at i b [] = []
set_at zero b (x ∷ xs) = b ∷ xs
set_at (suc i) b (x ∷ xs) = x ∷ set_at i b xs

-- "Write the bytes."
unfoldable pub write_loop : List ℕ → SinkStream → SinkStream
write_loop [] s = s
write_loop (b ∷ bs) s =
    write_loop bs (record { storage = set_at s.cursor b s.storage; cursor = suc s.cursor })

unfoldable pub write_bytes : List ℕ → SinkStream → Option SinkStream
write_bytes bs s =
    if ltb (length s.storage) (s.cursor + length bs) then none else some (write_loop bs s)

abbrev pub advance : ℕ → SourceStream → SourceStream
advance n s = record { storage = s.storage; cursor = s.cursor + n }

unfoldable pub read_bytes : ℕ → SourceStream → Option (List ℕ × SourceStream)
read_bytes n s =
    if ltb (length s.storage) (s.cursor + n)
    then none
    else some (take n (drop s.cursor s.storage), advance n s)

-- A call that writes, and one that reads an `A`. The calls are chained as the code chains them,
-- and an exception ends the chain.
abbrev pub Put : Type 0
Put = SinkStream → Option SinkStream

abbrev pub Get : Type 0 → Type 0
Get A = SourceStream → Option (A × SourceStream)

abbrev pub and_then : Option SinkStream → Put → Option SinkStream
and_then none q = none
and_then (some s) q = q s

infixr 5 ◌>>◌
unfoldable pub ◌>>◌ : Put → Put → Put
◌>>◌ p q s = and_then (p s) q

abbrev pub go_on :
    {A B : Type 0} → Option (A × SourceStream) → (A → Get B) → Option (B × SourceStream)
go_on none k = none
go_on (some (a, s)) k = k a s

infixl 5 ◌>>=◌
unfoldable pub ◌>>=◌ : {A B : Type 0} → Get A → (A → Get B) → Get B
◌>>=◌ g k s = go_on (g s) k

-- Nothing is written, and nothing is read.
unfoldable pub skip : Put
skip s = some s

unfoldable pub pure : {A : Type 0} → A → Get A
pure a s = some (a, s)
