-- ===== src/Util/Tokens.antt =====
-- TokenizeString (libserver/util/Util). A text is the list of its bytes; the loop's state is what
-- stands from `position` on.
pub mod Join
use alicia_server.Common.{
  ℕ, zero, suc, Option, none, some, List, [], ◌∷◌, ◌==◌, if◌then◌else◌, length,
}

-- The text before the first delimiter, and behind it; none if there is no delimiter (`npos`).
unfoldable pub split_first : ℕ → List ℕ → List ℕ × Option (List ℕ)
split_first delimiter [] = ([], none)
split_first delimiter (c ∷ cs) =
    let (before, after) = split_first delimiter cs in
    if c == delimiter then ([], some cs) else (c ∷ before, after)

unfoldable pub token_loop : ℕ → ℕ → List ℕ → List (List ℕ)
unfolding split_first
token_loop zero delimiter text = []
token_loop (suc fuel) delimiter text = elim (split_first delimiter text).1 [
  | none ↦ (split_first delimiter text).0 ∷ []
  | some rest ↦ (split_first delimiter text).0 ∷ token_loop fuel delimiter rest
]

-- Every round but the last takes a delimiter off the text.
unfoldable pub tokenize_string : ℕ → List ℕ → List (List ℕ)
unfolding token_loop
tokenize_string delimiter text = token_loop (suc (length text)) delimiter text
