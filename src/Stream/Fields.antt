-- ===== src/Stream/Fields.antt =====
-- Numbers, strings and lists that are written and read.
use alicia_server.Common.{
  ℕ, zero, suc, ◌+◌, ◌/◌, ◌%◌, ◌≤◌, ◌<◌, ◌≡◌, refl, sym, ap, ◌∙◌, Bool, true, false, not, some,
  List, [], ◌∷◌, ◌++◌, length, take, drop, All, arith, take_length-append, ◌==◌, subst,
}
use native.Mathlib.Bridge.{le_prop}
use alicia_server.Stream.{SourceStream, IsWithin, read_bytes, Put, Get, advance, pure}
use alicia_server.Stream.Words.{
  bound, Word, U8, le_bytes, le_value, from_le, cast, write_word, read_word, read_u8, write_bool,
  read_bool,
}
use alicia_server.Stream.Lists.{write_all, read_times, write_counted, read_counted}
use alicia_server.Stream.Codes.{
  Codes, Parses, Emits, chain, ending, nothing, >>=_some, drop-IsWithin,
}

pub length-le_bytes : (n v : ℕ) → length (le_bytes n v) ≡ n
unfolding le_bytes
length-le_bytes zero v = refl
length-le_bytes (suc n) v = ap suc (length-le_bytes n (v / 256))

le_value-le_bytes : (n v : ℕ) → v < bound n → le_value n (le_bytes n v) ≡ v
unfolding le_bytes le_value
le_value-le_bytes zero v h = omega arith
le_value-le_bytes (suc n) v h = omega (arith, le_value-le_bytes n (v / 256) (omega arith))

pub Word-path : {n : ℕ} (v w : Word n) → v.value ≡ w.value → v ≡ w
Word-path {n} v w e =
    subst (λ x. (h : x < bound n) → v ≡ record { value = x; fits = h }) e
      (λ h. ap (λ f. record { value = v.value; fits = f }) (le_prop v.fits h)) w.fits

pub cast-value : (n v : ℕ) → v < bound n → (cast n v).value ≡ v
unfolding cast from_le
cast-value n v h = le_value-le_bytes n v h

pub from_le-bytes : {n : ℕ} (w : Word n) → from_le n (le_bytes n w.value) ≡ w
unfolding from_le
from_le-bytes {n} w = Word-path _ w (le_value-le_bytes n w.value w.fits)

read_bytes-room :
    (n : ℕ) (s : SourceStream)
    → s.cursor + n ≤ length s.storage
    → read_bytes n s ≡ some (take n (drop s.cursor s.storage), advance n s)
unfolding read_bytes
read_bytes-room n s h = ground arith

pub read_bytes-Parses : (n : ℕ) (bs : List ℕ) → length bs ≡ n → Parses (read_bytes n) bs bs
read_bytes-Parses n bs e s rest h at_cursor =
    subst (λ m. read_bytes m s ≡ some (bs, advance (length bs) s)) e
      (read_bytes-room (length bs) s (drop-IsWithin bs rest s.cursor s.storage h at_cursor)
        ∙ ap (λ t. some (t, advance (length bs) s))
            (ap (take (length bs)) at_cursor ∙ take_length-append bs rest))

pub write_word-Emits : {n : ℕ} (w : Word n) → Emits (write_word w) (le_bytes n w.value)
unfolding write_word
write_word-Emits w s h = refl

pub read_word-Parses : {n : ℕ} (w : Word n) → Parses (read_word n) (le_bytes n w.value) w
unfolding read_word pure
read_word-Parses {n} w s rest h e =
    >>=_some (read_bytes n) (λ bs. pure (from_le n bs)) s _ _
      (read_bytes-Parses n (le_bytes n w.value) (length-le_bytes n w.value) s rest h e)
    ∙ ap (λ t. some (t, advance (length (le_bytes n w.value)) s)) (from_le-bytes w)

pub word : {n : ℕ} (w : Word n) → Codes (write_word w) (read_word n) w
word {n} w = record {
  bytes = le_bytes n w.value;
  emits = write_word-Emits w;
  parses = read_word-Parses w;
}

pub bool : (b : Bool) → Codes (write_bool b) read_bool b
unfolding write_bool read_bool cast from_le le_value le_bytes
bool true = ending (λ w. not (w.value == 0)) (word (cast 1 1))
bool false = ending (λ w. not (w.value == 0)) (word (cast 1 0))

module _ {A : Type 0} (w : A → Put) (g : Get A) where
  pub all :
      (xs : List A)
      → All (λ x. Codes (w x) g x) xs
      → Codes (write_all w xs) (read_times (length xs) g) xs
  unfolding write_all read_times
  all [] h = nothing
  all (x ∷ xs) h = chain _ h.0 (ending (◌∷◌ x) (all xs h.1))

  pub counted :
      (xs : List A)
      → length xs ≤ 255
      → All (λ x. Codes (w x) g x) xs
      → Codes (write_counted w xs) (read_counted g) xs
  unfolding write_counted read_counted
  counted xs short h = chain _ (word (cast 1 (length xs))) (
      subst (λ n. Codes (write_all w xs) (read_times n g) xs)
        (sym (cast-value 1 (length xs) (omega arith))) (all xs h))

pub every :
    {A : Type 0} {w : A → Put} {g : Get A}
    → ((x : A) → Codes (w x) g x)
    → (xs : List A) → All (λ x. Codes (w x) g x) xs
every h [] = tt
every h (x ∷ xs) = (h x, every h xs)

-- The first byte of a number of four, read by itself.
pub first_byte :
    (w : Word 4) (s : SourceStream) (rest : List ℕ)
    → IsWithin s
    → drop s.cursor s.storage ≡ le_bytes 4 w.value ++ rest
    → (c : U8) × (c.value ≡ w.value % 256) × (read_u8 s ≡ some (c, advance 1 s))
unfolding le_bytes
first_byte w s rest h e =
    let c = cast 1 (w.value % 256) in
    let same : c.value ≡ w.value % 256 = cast-value 1 (w.value % 256) (omega arith) in
    (c, same, read_word-Parses c s _ h (e ∙ split w.value c.value rest same))
  where
    split :
        (v b : ℕ) (rest : List ℕ)
        → b ≡ v % 256
        → le_bytes 4 v ++ rest ≡ le_bytes 1 b ++ (le_bytes 3 (v / 256) ++ rest)
    split v b rest e = ap (λ t. t ∷ (le_bytes 3 (v / 256) ++ rest)) (omega (arith, e))
