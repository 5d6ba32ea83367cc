-- ===== src/Stream/Codes.antt =====
-- What a call that writes and a call that reads owe each other, and that chains of calls keep it.
use alicia_server.Common.{
  ℕ, zero, suc, ◌+◌, ◌≤◌, ◌<◌, ◌≡◌, ◌≢◌, ◌↔◌, subst, refl, sym, ap, ◌∙◌, none, some, inl, inr, List,
  [], ◌∷◌, ◌++◌, length, drop, arith, length-append, append_assoc, drop_length-append, append_assoc,
  drop-drop,
}
use alicia_server.Stream.{
  SinkStream, SourceStream, IsWithin, write_loop, write_bytes, Put, Get, ◌>>◌, ◌>>=◌, advance, skip,
  pure, go_on,
}
use alicia_server.Stream.Laws.{
  write_bytes-write_bytes, write_bytes-room, write_bytes-full, room-cases, >>_some, >>_none,
  length-write_loop, cursor-write_loop, drop-write_loop,
}

-- The call writes these bytes, in one piece.
abbrev pub Emits : Put → List ℕ → Type 0
Emits p bs = (s : SinkStream) → IsWithin s → p s ≡ write_bytes bs s

-- Where these bytes stand next, the call reads the value from them and stops behind them.
abbrev pub Parses : {A : Type 0} → Get A → List ℕ → A → Type 0
Parses g bs v =
    (s : SourceStream) (rest : List ℕ)
    → IsWithin s
    → drop s.cursor s.storage ≡ bs ++ rest
    → g s ≡ some (v, advance (length bs) s)

-- A value that the one call writes and the other reads.
pub record Codes {A : Type 0} (p : Put) (g : Get A) (v : A) : Type 0 where
  pub bytes : List ℕ
  pub emits : Emits p bytes
  pub parses : Parses g bytes v

none-some : {A : Type 0} {a : A} → none ≢ some a
none-some e = cc

some_injective : {A : Type 0} {a b : A} → some a ≡ some b → a ≡ b
some_injective e = cc

-- A position in a sink after a write stays within the storage.
write_loop-IsWithin :
    (bs : List ℕ) (s : SinkStream)
    → s.cursor + length bs ≤ length s.storage
    → IsWithin (write_loop bs s)
write_loop-IsWithin bs s h = omega (arith, length-write_loop bs s, cursor-write_loop bs s)

pub drop-IsWithin :
    (xs ys : List ℕ) (c : ℕ) (st : List ℕ)
    → c ≤ length st
    → drop c st ≡ xs ++ ys
    → c + length xs ≤ length st
drop-IsWithin xs ys zero st h e = omega (arith, ap length e, length-append xs ys)
drop-IsWithin xs ys (suc c) [] h e = absurd (omega arith)
drop-IsWithin xs ys (suc c) (x ∷ st) h e = omega (arith, drop-IsWithin xs ys c st (omega arith) e)

pub Emits-chain : (p q : Put) (xs ys : List ℕ) → Emits p xs → Emits q ys → Emits (p >> q) (xs ++ ys)
Emits-chain p q xs ys ep eq s h = elim (room-cases (s.cursor + length xs) (length s.storage)) [
  | inl fits ↦
      let next = write_bytes-room xs s fits in
      >>_some p q s (write_loop xs s) (ep s h ∙ next)
      ∙ eq (write_loop xs s) (write_loop-IsWithin xs s fits)
      ∙ sym (>>_some (write_bytes xs) (write_bytes ys) s (write_loop xs s) next)
      ∙ write_bytes-write_bytes xs ys s
  | inr full ↦
      >>_none p q s (ep s h ∙ write_bytes-full xs s full)
      ∙ sym (write_bytes-full (xs ++ ys) s (omega (arith, length-append xs ys)))
]

pub >>=_some :
    {A B : Type 0} (g : Get A) (k : A → Get B) (s s' : SourceStream) (a : A)
    → g s ≡ some (a, s')
    → (g >>= k) s ≡ k a s'
unfolding ◌>>=◌
>>=_some g k s s' a e = ap (λ o. go_on o k) e

module _ {A B : Type 0} where
  pub Parses-chain :
      (g : Get A) (k : A → Get B) (xs ys : List ℕ) (a : A) (b : B)
      → Parses g xs a
      → Parses (k a) ys b
      → Parses (g >>= k) (xs ++ ys) b
  Parses-chain g k xs ys a b pg pk s rest h e =
      >>=_some g k s (advance (length xs) s) a (pg s (ys ++ rest) h assoc)
      ∙ pk (advance (length xs) s) rest inside behind
      ∙ ap (λ n. some (b, record { storage = s.storage; cursor = n }))
          (omega (arith, length-append xs ys))
    where
      assoc : drop s.cursor s.storage ≡ xs ++ (ys ++ rest)
      assoc = e ∙ append_assoc xs ys rest

      inside : s.cursor + length xs ≤ length s.storage
      inside = drop-IsWithin xs (ys ++ rest) s.cursor s.storage h assoc

      behind : drop (s.cursor + length xs) s.storage ≡ ys ++ rest
      behind =
          sym (drop-drop (length xs) s.cursor s.storage)
          ∙ ap (drop (length xs)) assoc
          ∙ drop_length-append xs (ys ++ rest)

  -- One field and the rest of a structure.
  unfoldable pub chain :
      {p q : Put} {g : Get A} (k : A → Get B) {a : A} {b : B}
      → Codes p g a
      → Codes q (k a) b
      → Codes (p >> q) (g >>= k) b
  chain {p} {q} {g} k {a} {b} c d = record {
    bytes = c.bytes ++ d.bytes;
    emits = Emits-chain p q c.bytes d.bytes c.emits d.emits;
    parses = Parses-chain g k c.bytes d.bytes a b c.parses d.parses;
  }

-- The last field, behind which the reader moves no further.
unfoldable pub finish :
    {A B : Type 0} {p : Put} {g : Get A} (k : A → Get B) {a : A} {b : B}
    → Codes p g a
    → ((s : SourceStream) → k a s ≡ some (b, s))
    → Codes p (g >>= k) b
finish {A} {B} {p} {g} k {a} {b} c stays = record {
  bytes = c.bytes;
  emits = c.emits;
  parses = λ s rest h e.
      >>=_some g k s (advance (length c.bytes) s) a (c.parses s rest h e)
      ∙ stays (advance (length c.bytes) s);
}

-- The last field, from which the reader makes its result.
pub ending :
    {A B : Type 0} {p : Put} {g : Get A} {a : A} (f : A → B)
    → Codes p g a
    → Codes p (g >>= λ x. pure (f x)) (f a)
unfolding pure
ending f c = finish (λ x. pure (f x)) c (λ s. refl)

-- Nothing written, nothing read.
pub nothing : {A : Type 0} {a : A} → Codes skip (pure a) a
unfolding skip pure write_loop
nothing {A} {a} = record {
  bytes = [];
  emits = λ s h. sym (write_bytes-room [] s (omega arith));
  parses =
      λ s rest h e. ap (λ n. some (a, record { storage = s.storage; cursor = n })) (omega arith);
}

module _ {A : Type 0} {p : Put} {g : Get A} {v : A} (c : Codes p g v) where
  -- What is written is read again, and the reader stops where the writer did.
  pub read_back :
      (s s' : SinkStream)
      → IsWithin s
      → p s ≡ some s'
      → g (record { storage = s'.storage; cursor = s.cursor }) ≡ some (v, s')
  read_back s s' h e = elim (room-cases (s.cursor + length c.bytes) (length s.storage)) [
    | inr full ↦ absurd (none-some (sym (c.emits s h ∙ write_bytes-full c.bytes s full) ∙ e))
    | inl fits ↦
        subst (λ t. g (record { storage = t.storage; cursor = s.cursor }) ≡ some (v, t))
          (some_injective (sym (c.emits s h ∙ write_bytes-room c.bytes s fits) ∙ e))
          (c.parses (record { storage = (write_loop c.bytes s).storage; cursor = s.cursor }) _
              (omega (arith, length-write_loop c.bytes s)) (drop-write_loop c.bytes s fits)
            ∙ ap (λ n. some (v, record { storage = (write_loop c.bytes s).storage; cursor = n }))
                (sym (cursor-write_loop c.bytes s)))
  ]

  -- The writer throws exactly where the bytes do not fit.
  pub throws_full :
      (s : SinkStream) → IsWithin s → (p s ≡ none) ↔ (length s.storage < s.cursor + length c.bytes)
  throws_full s h = (to, λ full. c.emits s h ∙ write_bytes-full c.bytes s full)
    where
      to : p s ≡ none → length s.storage < s.cursor + length c.bytes
      to e = elim (room-cases (s.cursor + length c.bytes) (length s.storage)) [
        | inr full ↦ full
        | inl fits ↦ absurd (none-some (sym e ∙ c.emits s h ∙ write_bytes-room c.bytes s fits))
      ]

-- What is neither written nor read.
pub unwritten : {A : Type 0} {q : Put} {g : Get A} {v : A} → Codes q g v → Codes (skip >> q) g v
unfolding ◌>>◌ skip
unwritten c = record { bytes = c.bytes; emits = c.emits; parses = c.parses }

pub unread :
    {A B : Type 0} {q : Put} (k : A → Get B) {a : A} {v : B}
    → Codes q (k a) v
    → Codes q (pure a >>= k) v
unfolding ◌>>=◌ pure
unread k c = record { bytes = c.bytes; emits = c.emits; parses = c.parses }

-- What stands in a sink where a call has written.
pub written :
    (p : Put) (bs : List ℕ)
    → Emits p bs
    → (s s' : SinkStream) → IsWithin s
    → p s ≡ some s'
    → (drop s.cursor s'.storage ≡ bs ++ drop (s.cursor + length bs) s.storage)
      × (s.cursor ≤ length s'.storage)
written p bs emits s s' h e = elim (room-cases (s.cursor + length bs) (length s.storage)) [
  | inr full ↦ absurd (none-some (sym (emits s h ∙ write_bytes-full bs s full) ∙ e))
  | inl fits ↦
      subst
        (λ t.
          (drop s.cursor t.storage ≡ bs ++ drop (s.cursor + length bs) s.storage)
          × (s.cursor ≤ length t.storage))
        (some_injective (sym (emits s h ∙ write_bytes-room bs s fits) ∙ e))
        (drop-write_loop bs s fits, omega (arith, length-write_loop bs s))
]
