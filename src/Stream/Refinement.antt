-- ===== src/Stream/Refinement.antt =====
-- What a SinkStream promises: bytes are appended to those before its cursor, as long as there is
-- room.
use alicia_server.Common.{
  ℕ, ◌+◌, ◌-◌, ◌≤◌, ◌<◌, ◌≡◌, sym, ap, ◌∙◌, Option, none, some, inl, inr, List, ◌++◌, leb,
  if◌then◌else◌, length, take, drop, arith, length-append, append_assoc, take_length-append,
}
use alicia_server.Stream.{SinkStream, IsWithin, write_loop, write_bytes}
use alicia_server.Stream.Laws.{
  storage-write_loop, cursor-write_loop, length-write_loop, write_bytes-room, write_bytes-full,
  room-cases, length-take_at,
}

-- The abstract view, which forgets the bytes behind the cursor.
pub record Log : Type 0 where
  pub written : List ℕ
  pub room : ℕ

abbrev pub append : List ℕ → Log → Option Log
append bs l =
    if leb (length bs) l.room
    then some (record { written = l.written ++ bs; room = l.room - length bs })
    else none

abbrev pub view : SinkStream → Log
view s = record { written = take s.cursor s.storage; room = length s.storage - s.cursor }

abbrev pub view_result : Option SinkStream → Option Log
view_result none = none
view_result (some s) = some (view s)

append-room :
    (bs : List ℕ) (l : Log)
    → length bs ≤ l.room
    → append bs l ≡ some (record { written = l.written ++ bs; room = l.room - length bs })
append-room bs l h = ground arith

append-full : (bs : List ℕ) (l : Log) → l.room < length bs → append bs l ≡ none
append-full bs l h = ground arith

written-write_loop :
    (bs : List ℕ) (s : SinkStream)
    → s.cursor + length bs ≤ length s.storage
    → take (write_loop bs s).cursor (write_loop bs s).storage ≡ take s.cursor s.storage ++ bs
written-write_loop bs s h =
    ap (take (write_loop bs s).cursor) (storage-write_loop bs s h ∙ sym (append_assoc before bs _))
    ∙ ap (λ n. take n ((before ++ bs) ++ drop (s.cursor + length bs) s.storage))
        (omega (
          arith,
          cursor-write_loop bs s,
          length-append before bs,
          length-take_at s.cursor s.storage (omega arith),
        ))
    ∙ take_length-append (before ++ bs) _
  where
    before : List ℕ
    before = take s.cursor s.storage

-- A write to a sink whose cursor is within its storage is the append of the same bytes to its
-- abstract view, the bytes before the cursor and the room behind it: it throws exactly when the
-- append has no room, and otherwise leaves the view that the append gives.
pub write_bytes-append :
    (bs : List ℕ) (s : SinkStream)
    → IsWithin s
    → view_result (write_bytes bs s) ≡ append bs (view s)
write_bytes-append bs s h = elim (room-cases (s.cursor + length bs) (length s.storage)) [
  | inr full ↦
      ap view_result (write_bytes-full bs s full) ∙ sym (append-full bs (view s) (omega arith))
  | inl fits ↦
      ap view_result (write_bytes-room bs s fits)
      ∙ ap
          (λ w. some (record {
            written = w;
            room = length (write_loop bs s).storage - (write_loop bs s).cursor;
          }))
          (written-write_loop bs s fits)
      ∙ ap (λ n. some (record { written = take s.cursor s.storage ++ bs; room = n }))
          (omega (arith, cursor-write_loop bs s, length-write_loop bs s))
      ∙ sym (append-room bs (view s) (omega arith))
]
