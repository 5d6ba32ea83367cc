-- ===== src/Stream/Laws.antt =====
-- Raw writes and reads of libserver/util/Stream: what a write leaves in the storage.
use alicia_server.Common.{
  ℕ, zero, suc, ◌+◌, ◌≤◌, ◌<◌, ◌≡◌, refl, sym, ap, ◌∙◌, none, some, List, [], ◌∷◌, ◌++◌, length,
  take, drop, arith, length-append, append_assoc, drop_length-append, take-append-drop,
  append_assoc, append_assoc, inl, inr,
}
use native.Mathlib.Decide.{dec_le}
use mathlib.Core.Logic.{◌⊎◌}
use alicia_server.Stream.{SinkStream, set_at, write_loop, write_bytes, Put, ◌>>◌, and_then}

length-set_at : (i b : ℕ) (xs : List ℕ) → length (set_at i b xs) ≡ length xs
unfolding set_at
length-set_at i b [] = refl
length-set_at zero b (x ∷ xs) = refl
length-set_at (suc i) b (x ∷ xs) = ap suc (length-set_at i b xs)

take-set_at :
    (i b : ℕ) (xs : List ℕ) → i < length xs → take (suc i) (set_at i b xs) ≡ take i xs ++ (b ∷ [])
unfolding set_at
take-set_at i b [] h = absurd (omega arith)
take-set_at zero b (x ∷ xs) h = refl
take-set_at (suc i) b (x ∷ xs) h = ap (◌∷◌ x) (take-set_at i b xs (omega arith))

drop-set_at : (i k b : ℕ) (xs : List ℕ) → i < k → drop k (set_at i b xs) ≡ drop k xs
unfolding set_at
drop-set_at i k b [] h = refl
drop-set_at i zero b (x ∷ xs) h = absurd (omega arith)
drop-set_at zero (suc k) b (x ∷ xs) h = refl
drop-set_at (suc i) (suc k) b (x ∷ xs) h = drop-set_at i k b xs (omega arith)

pub length-write_loop :
    (bs : List ℕ) (s : SinkStream) → length (write_loop bs s).storage ≡ length s.storage
unfolding write_loop
length-write_loop [] s = refl
length-write_loop (b ∷ bs) s = length-write_loop bs _ ∙ length-set_at s.cursor b s.storage

pub cursor-write_loop :
    (bs : List ℕ) (s : SinkStream) → (write_loop bs s).cursor ≡ s.cursor + length bs
unfolding write_loop
cursor-write_loop [] s = omega arith
cursor-write_loop (b ∷ bs) s =
    let ih =
      cursor-write_loop bs
        (record { storage = set_at s.cursor b s.storage; cursor = suc s.cursor }) in
    omega arith

-- A write replaces the bytes at the cursor and no other.
pub storage-write_loop :
    (bs : List ℕ) (s : SinkStream)
    → s.cursor + length bs ≤ length s.storage
    → (write_loop bs s).storage
      ≡ take s.cursor s.storage ++ (bs ++ drop (s.cursor + length bs) s.storage)
unfolding write_loop
storage-write_loop [] s h =
    sym (take-append-drop s.cursor s.storage)
    ∙ ap (λ k. take s.cursor s.storage ++ drop k s.storage) (omega arith)
storage-write_loop (b ∷ bs) s h =
    storage-write_loop bs next room
    ∙ ap (λ t. t ++ (bs ++ drop (suc s.cursor + length bs) next.storage))
        (take-set_at s.cursor b s.storage (omega arith))
    ∙ append_assoc (take s.cursor s.storage) (b ∷ []) _
    ∙ ap (λ t. take s.cursor s.storage ++ (b ∷ (bs ++ t)))
        (drop-set_at s.cursor (suc s.cursor + length bs) b s.storage (omega arith)
          ∙ ap (λ k. drop k s.storage) same)
  where
    next : SinkStream
    next = record { storage = set_at s.cursor b s.storage; cursor = suc s.cursor }

    room : next.cursor + length bs ≤ length next.storage
    room = omega (arith, length-set_at s.cursor b s.storage)

    same : suc s.cursor + length bs ≡ s.cursor + suc (length bs)
    same = omega arith

write_loop-append :
    (xs bs : List ℕ) (s : SinkStream) → write_loop (xs ++ bs) s ≡ write_loop bs (write_loop xs s)
unfolding write_loop
write_loop-append [] bs s = refl
write_loop-append (a ∷ xs) bs s = write_loop-append xs bs _

pub length-take_at : (i : ℕ) (xs : List ℕ) → i ≤ length xs → length (take i xs) ≡ i
length-take_at zero xs h = refl
length-take_at (suc i) [] h = absurd (omega arith)
length-take_at (suc i) (x ∷ xs) h = ap suc (length-take_at i xs (omega arith))

-- What stands at the old cursor after a write.
pub drop-write_loop :
    (bs : List ℕ) (s : SinkStream)
    → s.cursor + length bs ≤ length s.storage
    → drop s.cursor (write_loop bs s).storage ≡ bs ++ drop (s.cursor + length bs) s.storage
drop-write_loop bs s h =
    ap (drop s.cursor) (storage-write_loop bs s h)
    ∙ ap (λ k. drop k (take s.cursor s.storage ++ (bs ++ drop (s.cursor + length bs) s.storage)))
        (sym (length-take_at s.cursor s.storage (omega arith)))
    ∙ drop_length-append (take s.cursor s.storage) _

-- A write that fits is done.
pub write_bytes-room :
    (bs : List ℕ) (s : SinkStream)
    → s.cursor + length bs ≤ length s.storage
    → write_bytes bs s ≡ some (write_loop bs s)
unfolding write_bytes
write_bytes-room bs s h = ground arith

pub write_bytes-full :
    (bs : List ℕ) (s : SinkStream)
    → length s.storage < s.cursor + length bs
    → write_bytes bs s ≡ none
unfolding write_bytes
write_bytes-full bs s h = ground arith

pub room-cases : (m n : ℕ) → (m ≤ n) ⊎ (n < m)
room-cases m n = elim (dec_le m n) [ yes h ↦ inl h | no h ↦ inr (omega arith) ]

pub >>_some : (p q : Put) (s s' : SinkStream) → p s ≡ some s' → (p >> q) s ≡ q s'
unfolding ◌>>◌
>>_some p q s s' e = ap (λ o. and_then o q) e

pub >>_none : (p q : Put) (s : SinkStream) → p s ≡ none → (p >> q) s ≡ none
unfolding ◌>>◌
>>_none p q s e = ap (λ o. and_then o q) e

-- Two writes, one after the other, are one write of all the bytes: either both leave the same sink
-- or both throw.
pub write_bytes-write_bytes :
    (xs ys : List ℕ) (s : SinkStream)
    → (write_bytes xs >> write_bytes ys) s ≡ write_bytes (xs ++ ys) s
write_bytes-write_bytes xs ys s = elim (room-cases (s.cursor + length xs) (length s.storage)) [
  | inr full ↦
      >>_none (write_bytes xs) (write_bytes ys) s (write_bytes-full xs s full)
      ∙ sym (write_bytes-full (xs ++ ys) s (omega (arith, length-append xs ys)))
  | inl fits ↦
      >>_some (write_bytes xs) (write_bytes ys) s (write_loop xs s) (write_bytes-room xs s fits)
      ∙ elim (room-cases (s.cursor + length (xs ++ ys)) (length s.storage)) [
        | inl all_fit ↦
            write_bytes-room ys (write_loop xs s) (omega (arith, second))
            ∙ ap some (sym (write_loop-append xs ys s))
            ∙ sym (write_bytes-room (xs ++ ys) s all_fit)
        | inr full ↦
            write_bytes-full ys (write_loop xs s) (omega (arith, second))
            ∙ sym (write_bytes-full (xs ++ ys) s full)
      ]
]
  where
    second :
        (s.cursor + length (xs ++ ys) ≡ (write_loop xs s).cursor + length ys)
        × (length (write_loop xs s).storage ≡ length s.storage)
    second = (omega (arith, length-append xs ys, cursor-write_loop xs s), length-write_loop xs s)
