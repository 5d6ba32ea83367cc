-- ===== src/Stream/Lines.antt =====
-- SourceStream::Read of a string: the loop stops, and it throws where no NUL stands ahead.
use alicia_server.Common.{
  ℕ, zero, suc, ◌+◌, ◌≤◌, ◌<◌, ◌≡◌, refl, ap, subst, ◌∙◌, true, false, Option, none, some, List, [],
  ◌∷◌, ◌++◌, ◌==◌, if◌then◌else◌, length, drop, arith, length-drop,
}
use alicia_server.Stream.{SourceStream, IsWithin, Get, ◌>>=◌, pure, read_bytes, advance, go_on}
use alicia_server.Stream.Words.{U8, from_le, read_word, read_u8}
use alicia_server.Stream.Strings.{String, read_chars}
use alicia_server.Stream.Codes.{>>=_some}
use alicia_server.Stream.Fields.{read_bytes-Parses}

abbrev char : ℕ → U8
char b = from_le 1 (b ∷ [])

-- The characters before the first NUL behind those of a buffer, and the number of bytes taken;
-- `none` if there is no NUL.
abbrev pub until_nul : String → List ℕ → ℕ → Option (String × ℕ)
until_nul buffer [] taken = none
until_nul buffer (b ∷ bs) taken =
    if (from_le 1 (b ∷ [])).value == 0
    then some (buffer, suc taken)
    else until_nul (buffer ++ (from_le 1 (b ∷ []) ∷ [])) bs (suc taken)

abbrev pub line_at : SourceStream → Option (String × ℕ) → Option (String × SourceStream)
line_at s none = none
line_at s (some (text, n)) = some (text, advance n s)

read_bytes-end : (s : SourceStream) → length s.storage ≤ s.cursor → read_bytes 1 s ≡ none
unfolding read_bytes
read_bytes-end s h = ground arith

read_u8-end : (s : SourceStream) → drop s.cursor s.storage ≡ [] → read_u8 s ≡ none
unfolding read_word ◌>>=◌
read_u8-end s e =
    ap (λ o. go_on o (λ bs. pure (from_le 1 bs)))
      (read_bytes-end s (omega (arith, ap length e, length-drop s.cursor s.storage)))

read_u8-byte :
    (s : SourceStream) (b : ℕ) (bs : List ℕ)
    → IsWithin s
    → drop s.cursor s.storage ≡ b ∷ bs
    → read_u8 s ≡ some (char b, advance 1 s)
unfolding read_word pure
read_u8-byte s b bs h e =
    >>=_some (read_bytes 1) _ s (advance 1 s) (b ∷ []) (read_bytes-Parses 1 (b ∷ []) refl s bs h e)

abbrev round : ℕ → String → U8 → Get String
round fuel buffer c = if c.value == 0 then pure buffer else read_chars fuel (buffer ++ (c ∷ []))

next_char : (taken : ℕ) (s : SourceStream) → advance 1 (advance taken s) ≡ advance (suc taken) s
next_char taken s = ap (λ n. record { storage = s.storage; cursor = n }) (omega arith)

behind_at :
    (n b : ℕ) (bs st : List ℕ) → drop n st ≡ b ∷ bs → (drop (suc n) st ≡ bs) × (suc n ≤ length st)
behind_at zero b bs [] e = absurd (cc)
behind_at zero b bs (x ∷ st) e = (cc, omega arith)
behind_at (suc n) b bs [] e = absurd (cc)
behind_at (suc n) b bs (x ∷ st) e =
    let rest = behind_at n b bs st e in (rest.0, omega (arith, rest.1))

-- The loop after some bytes, from where the string starts.
reads_on :
    (fuel taken : ℕ) (buffer : String) (s : SourceStream) (ahead : List ℕ)
    → s.cursor + taken ≤ length s.storage
    → drop (s.cursor + taken) s.storage ≡ ahead
    → length ahead < fuel
    → read_chars fuel buffer (advance taken s) ≡ line_at s (until_nul buffer ahead taken)
unfolding read_chars ◌>>=◌ pure
reads_on zero taken buffer s ahead h e enough = absurd (omega arith)
reads_on (suc fuel) taken buffer s [] h e enough =
    ap (λ o. go_on o (round fuel buffer)) (read_u8-end (advance taken s) e)
reads_on (suc fuel) taken buffer s (b ∷ bs) h e enough =
    ap (λ o. go_on o (round fuel buffer)) (read_u8-byte (advance taken s) b bs h e)
    ∙ ap (λ t. round fuel buffer (char b) t) (next_char taken s)
    ∙ elim ((char b).value == 0)
        as (λ nul.
          (if nul then pure buffer else read_chars fuel (buffer ++ (char b ∷ [])))
            (advance (suc taken) s)
          ≡ line_at s (
              if nul
              then some (buffer, suc taken)
              else until_nul (buffer ++ (char b ∷ [])) bs (suc taken))) [
                | true ↦ refl
                | false ↦
                    reads_on fuel (suc taken) (buffer ++ (char b ∷ [])) s bs inside behind
                      (omega arith)
              ]
  where
    next : s.cursor + suc taken ≡ suc (s.cursor + taken)
    next = omega arith

    inside : s.cursor + suc taken ≤ length s.storage
    inside = omega (arith, (behind_at (s.cursor + taken) b bs s.storage e).1)

    behind : drop (s.cursor + suc taken) s.storage ≡ bs
    behind = ap (λ n. drop n s.storage) next ∙ (behind_at (s.cursor + taken) b bs s.storage e).0

-- The loop that reads a string, given more rounds than the storage has bytes, takes the characters
-- up to the first NUL at or behind a cursor within the storage and moves the cursor behind it; it
-- throws exactly when there is none.
pub read_chars-until_nul :
    (fuel : ℕ) (s : SourceStream)
    → IsWithin s
    → length s.storage < fuel
    → read_chars fuel [] s ≡ line_at s (until_nul [] (drop s.cursor s.storage) 0)
read_chars-until_nul fuel s h enough =
    subst
      (λ n.
        read_chars fuel [] (record { storage = s.storage; cursor = n })
        ≡ line_at s (until_nul [] (drop s.cursor s.storage) 0))
      here
      (reads_on fuel 0 [] s _ (omega arith) (ap (λ n. drop n s.storage) here)
        (omega (arith, length-drop s.cursor s.storage)))
  where
    here : s.cursor + 0 ≡ s.cursor
    here = omega arith
