-- ===== src/Util/Tokens/Join.antt =====
-- The tokens joined again are the text.
use alicia_server.Common.{
  ℕ, zero, suc, ◌<◌, ◌≡◌, refl, ap, sym, ◌∙◌, false, Option, none, some, List, [], ◌∷◌, ◌++◌,
  length, length-append, arith, All, member, Bool-cases, inl, inr, ◌==◌,
}
use alicia_server.Util.Tokens.{split_first, token_loop, tokenize_string}

-- The tokens, with a delimiter between each two.
abbrev pub join : ℕ → List (List ℕ) → List ℕ
join d [] = []
join d (t ∷ []) = t
join d (t ∷ u ∷ ts) = t ++ d ∷ join d (u ∷ ts)

abbrev pub IsFree : ℕ → List ℕ → Type 0
IsFree d t = member d t ≡ false

-- What `split_first` finds.
abbrev Splits : ℕ → List ℕ → List ℕ × Option (List ℕ) → Type 0
Splits d text (before, none) = (text ≡ before) × IsFree d before
Splits d text (before, some after) = (text ≡ before ++ d ∷ after) × IsFree d before

Splits-cons :
    (d c : ℕ) (cs : List ℕ) (r : List ℕ × Option (List ℕ))
    → (c == d) ≡ false
    → Splits d cs r
    → Splits d (c ∷ cs) (c ∷ r.0, r.1)
Splits-cons d c cs (before, none) n h = (ap (◌∷◌ c) h.0, ground arith)
Splits-cons d c cs (before, some after) n h = (ap (◌∷◌ c) h.0, ground arith)

split_first-Splits : (d : ℕ) (text : List ℕ) → Splits d text (split_first d text)
unfolding split_first
split_first-Splits d [] = (refl, refl)
split_first-Splits d (c ∷ cs) = elim (Bool-cases (c == d)) [
  | inl same ↦ rw same (ap (λ t. t ∷ cs) (ground arith), refl)
  | inr other ↦ rw other (Splits-cons d c cs (split_first d cs) other (split_first-Splits d cs))
]

split_first-free : (d : ℕ) (t : List ℕ) → IsFree d t → split_first d t ≡ (t, none)
unfolding split_first
split_first-free d [] h = refl
split_first-free d (c ∷ cs) h = ground (arith, split_first-free d cs)

split_first-append :
    (d : ℕ) (t rest : List ℕ) → IsFree d t → split_first d (t ++ d ∷ rest) ≡ (t, some rest)
unfolding split_first
split_first-append d [] rest h = ground arith
split_first-append d (c ∷ cs) rest h = ground (arith, split_first-append d cs rest)

-- Tokens that are free of the delimiter make up a text.
pub record AreTokens (d : ℕ) (text : List ℕ) (tokens : List (List ℕ)) : Type 0 where
  pub joined : join d tokens ≡ text
  pub free : All (IsFree d) tokens
  pub some_token : 0 < length tokens

join-cons :
    (d : ℕ) (t : List ℕ) (ts : List (List ℕ)) → 0 < length ts → join d (t ∷ ts) ≡ t ++ d ∷ join d ts
join-cons d t [] h = absurd (omega arith)
join-cons d t (u ∷ ts) h = refl

length-Splits :
    (d : ℕ) (text before after : List ℕ)
    → Splits d text (before, some after)
    → length after < length text
length-Splits d text before after h = omega (arith, ap length h.0, length-append before (d ∷ after))

token_loop-AreTokens :
    (fuel d : ℕ) (text : List ℕ) → length text < fuel → AreTokens d text (token_loop fuel d text)
unfolding token_loop
token_loop-AreTokens zero d text h = absurd (omega arith)
token_loop-AreTokens (suc fuel) d text h =
    go (split_first d text) refl (split_first-Splits d text) (token_loop-AreTokens fuel d)
  where
    go :
        (r : List ℕ × Option (List ℕ))
        → split_first d text ≡ r
        → Splits d text r
        → ((rest : List ℕ) → length rest < fuel → AreTokens d rest (token_loop fuel d rest))
        → AreTokens d text (token_loop (suc fuel) d text)
    go (before, none) e s ih =
        rw (e, token_loop)
          (rw e (record { joined = sym s.0; free = (s.1, tt); some_token = omega arith }))
    go (before, some after) e s ih =
        let rest = ih after (omega (arith, length-Splits d text before after s)) in
        rw (e, token_loop)
          (rw e (record {
            joined =
                join-cons d before (token_loop fuel d after) rest.some_token
                ∙ ap (λ t. before ++ d ∷ t) rest.joined
                ∙ sym s.0;
            free = (s.1, rest.free);
            some_token = omega arith;
          }))

-- The tokens of a text hold no delimiter, and joined by delimiters they are the text; there is at
-- least one.
pub tokenize_string-AreTokens : (d : ℕ) (text : List ℕ) → AreTokens d text (tokenize_string d text)
unfolding tokenize_string
tokenize_string-AreTokens d text = token_loop-AreTokens (suc (length text)) d text (omega arith)

token_loop-join :
    (fuel d : ℕ) (t : List ℕ) (ts : List (List ℕ))
    → length (join d (t ∷ ts)) < fuel
    → All (IsFree d) (t ∷ ts)
    → token_loop fuel d (join d (t ∷ ts)) ≡ t ∷ ts
unfolding token_loop
token_loop-join zero d t ts h f = absurd (omega arith)
token_loop-join (suc fuel) d t [] h f =
    rw (split_first-free d t f.0, token_loop) (rw (split_first-free d t f.0))
token_loop-join (suc fuel) d t (u ∷ ts) h f =
    rw (split_first-append d t (join d (u ∷ ts)) f.0, token_loop)
      (rw (split_first-append d t (join d (u ∷ ts)) f.0) (
        ap (◌∷◌ t)
          (token_loop-join fuel d u ts (omega (arith, length-append t (d ∷ join d (u ∷ ts)))) f.1)))

-- Tokens without delimiters, at least one, are found again in their text joined by delimiters.
pub tokenize_string-join :
    (d : ℕ) (t : List ℕ) (ts : List (List ℕ))
    → All (IsFree d) (t ∷ ts)
    → tokenize_string d (join d (t ∷ ts)) ≡ t ∷ ts
unfolding tokenize_string
tokenize_string-join d t ts f =
    token_loop-join (suc (length (join d (t ∷ ts)))) d t ts (omega arith) f
