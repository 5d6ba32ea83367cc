-- ===== src/Protocol/Frame/Chunks.antt =====
-- How the received bytes are cut into reads does not matter.
use alicia_server.Common.{
  ℕ, ◌+◌, ◌≤◌, length, ◌≡◌, sym, ap, ◌∙◌, ◌≢◌, Bool, List, [], ◌∷◌, ◌++◌, drop, arith, drop-drop,
}
use alicia_server.Protocol.Frame.{
  Round, wait, Event, waiting, stalled, Outcome, read_command, on_client_data,
}
use alicia_server.Protocol.Frame.Rounds.{
  prefix, extend, follow, next-Shrinks, read_command-extend, on_client_data_unroll, rounds,
}

module _ (registered : ℕ → Bool) where
  -- Whatever the bytes, the command loop ends by its own test or by an exception: the number of
  -- bytes is fuel enough.
  pub on_client_data-ne-stalled :
      (code : ℕ) (bytes : List ℕ) → (on_client_data registered code bytes).status ≢ stalled
  on_client_data-ne-stalled =
      rounds registered (λ code bytes. (on_client_data registered code bytes).status ≢ stalled)
        (λ code bytes e. rw (on_client_data_unroll registered code bytes, e) (λ p. cc))
        (λ code c bytes x e. rw (on_client_data_unroll registered code bytes, e) (λ p. cc))
        (λ code c size bytes rest x e ih. rw (on_client_data_unroll registered code bytes, e) ih)

  -- No more bytes are consumed than there are.
  pub consumed-le :
      (code : ℕ) (bytes : List ℕ) → (on_client_data registered code bytes).consumed ≤ length bytes
  consumed-le =
      rounds registered
        (λ code bytes. (on_client_data registered code bytes).consumed ≤ length bytes)
        (λ code bytes e. rw (on_client_data_unroll registered code bytes, e) (omega arith))
        (λ code c bytes x e. rw (on_client_data_unroll registered code bytes, e) (omega arith))
        (λ code c size bytes rest x e ih.
          rw (on_client_data_unroll registered code bytes, e)
            (let s = next-Shrinks registered code bytes e in omega (arith, s, ih)))

  -- What the server does with `a ++ b` after `a` has arrived: `a` alone, then what `a` left over
  -- with `b` behind it.
  abbrev pub resume : Outcome → List ℕ → List ℕ → Outcome
  resume done a b =
      prefix done.events done.consumed
        (on_client_data registered done.code (drop done.consumed a ++ b))

  resume-prefix :
      (x : Event) (size : ℕ) (done : Outcome) (a rest b : List ℕ)
      → drop size a ≡ rest
      → prefix (x ∷ []) size (resume done rest b) ≡ resume (prefix (x ∷ []) size done) a b
  resume-prefix x size done a rest b e =
      rw (← drop-drop done.consumed size a, e)
        λ i. record {
          events = x ∷ done.events ++ more.events;
          code = more.code;
          consumed = total i;
          status = more.status;
        }
    where
      more : Outcome
      more = on_client_data registered done.code (drop done.consumed rest ++ b)

      total : size + (done.consumed + more.consumed) ≡ size + done.consumed + more.consumed
      total = omega arith

  resume_nothing :
      (code : ℕ) (a b : List ℕ)
      → on_client_data registered code (a ++ b)
        ≡ prefix [] 0 (on_client_data registered code (a ++ b))
  resume_nothing code a b = λ i. record {
    events = whole.events;
    code = whole.code;
    consumed = none_yet i;
    status = whole.status;
  }
    where
      whole : Outcome
      whole = on_client_data registered code (a ++ b)

      none_yet : whole.consumed ≡ 0 + whole.consumed
      none_yet = omega arith

  -- One round over `a ++ b` is the round over `a`, unless that waits.
  round-append :
      (code : ℕ) (a b : List ℕ) {r : Round}
      → read_command registered code a ≡ r
      → r ≢ wait
      → on_client_data registered code (a ++ b) ≡ follow registered code (extend r b)
  round-append code a b e n =
      on_client_data_unroll registered code (a ++ b)
      ∙ ap (follow registered code)
          (read_command-extend registered code a b (λ p. n (sym e ∙ p)) ∙ ap (λ r. extend r b) e)

  round_lem :
      (code : ℕ) (a : List ℕ) {r : Round}
      → read_command registered code a ≡ r
      → on_client_data registered code a ≡ follow registered code r
  round_lem code a e = on_client_data_unroll registered code a ∙ ap (follow registered code) e

  -- Bytes that arrive in two parts, of which the first ends without an exception, lead to the same
  -- events, rolling code, status and number of consumed bytes as if they had arrived at once.
  pub on_client_data-append :
      (code : ℕ) (a b : List ℕ)
      → (on_client_data registered code a).status ≡ waiting
      → on_client_data registered code (a ++ b) ≡ resume (on_client_data registered code a) a b
  on_client_data-append code a b =
      rounds registered
        (λ code a.
          (on_client_data registered code a).status ≡ waiting
          → on_client_data registered code (a ++ b) ≡ resume (on_client_data registered code a) a b)
        (λ code a e w. rw (on_client_data_unroll registered code a, e) (resume_nothing code a b))
        (λ code c a x e w. absurd (let p = rw (round_lem code a e) at w in cc))
        (λ code c size a rest x e ih w.
          round-append code a b e (λ p. cc)
          ∙ ap (prefix (x ∷ []) size) (ih (rw (round_lem code a e) at w))
          ∙ resume-prefix x size (on_client_data registered c rest) a rest b
              (next-Shrinks registered code a e).2
          ∙ ap (λ d. resume d a b) (sym (round_lem code a e)))
        code a

  -- If OnClientData ends by an exception on some bytes, it does the same with more bytes behind
  -- them: the same events, code and exception.
  pub on_client_data-append_threw :
      (code : ℕ) (a b : List ℕ)
      → (on_client_data registered code a).status ≢ waiting
      → on_client_data registered code (a ++ b) ≡ on_client_data registered code a
  on_client_data-append_threw code a b =
      rounds registered
        (λ code a.
          (on_client_data registered code a).status ≢ waiting
          → on_client_data registered code (a ++ b) ≡ on_client_data registered code a)
        (λ code a e w. absurd (w (ap (λ d. d.status) (round_lem code a e))))
        (λ code c a x e w. round-append code a b e (λ p. cc) ∙ sym (round_lem code a e))
        (λ code c size a rest x e ih w.
          round-append code a b e (λ p. cc)
          ∙ ap (prefix (x ∷ []) size) (ih (rw (round_lem code a e) at w))
          ∙ sym (round_lem code a e))
        code a
