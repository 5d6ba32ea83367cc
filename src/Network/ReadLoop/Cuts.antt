-- ===== src/Network/ReadLoop/Cuts.antt =====
-- The read loop against the whole of the bytes: how a client's bytes are cut into reads has no effect.
use alicia_server.Common.{
  arith, ℕ, ◌≡◌, refl, sym, ap, subst, ◌∙◌, inl, inr, Bool, true, false, List, [], ◌∷◌, ◌++◌, drop,
  if◌then◌else◌, Bool-cases, drop-append_le, drop-drop, drop-nil,
}
use mathlib.Core.List.{append_assoc, append-nil}
use alicia_server.Protocol.Frame.{Status, waiting, stalled, threw, Outcome, on_client_data}
use alicia_server.Protocol.Frame.Rounds.{prefix, follow, on_client_data_unroll, read_command-nil}
use alicia_server.Protocol.Frame.Chunks.{
  on_client_data-append, on_client_data-append_threw, consumed-le,
}
use alicia_server.Network.ReadLoop.{Reader, is_waiting, consume, on_read, read_loop, begin, joined}

is_waiting_lem : (s : Status) → is_waiting s ≡ true → s ≡ waiting
is_waiting_lem waiting h = refl
is_waiting_lem stalled h = cc
is_waiting_lem (threw e) h = cc

on_read_running :
    (registered : ℕ → Bool) (r : Reader) (b : List ℕ)
    → r.should_run ≡ true
    → on_read registered r b
      ≡ consume registered r
          (r.read_buffer ++ b)
          (on_client_data registered r.code (r.read_buffer ++ b))
unfolding on_read
on_read_running registered r b on = ground arith

on_read_ended :
    (registered : ℕ → Bool) (r : Reader) (b : List ℕ)
    → r.should_run ≡ false
    → on_read registered r b ≡ r
unfolding on_read
on_read_ended registered r b off = ground arith

module _ (registered : ℕ → Bool) (code : ℕ) where
  -- What a reader must look like once the bytes `a` have arrived, however they were cut.
  pub record HasRead (a : List ℕ) (r : Reader) : Type 0 where
    pub runs : r.should_run ≡ is_waiting (on_client_data registered code a).status
    pub in_step : r.code ≡ (on_client_data registered code a).code
    pub dispatched : r.events ≡ (on_client_data registered code a).events
    pub left_over :
        r.should_run ≡ true → r.read_buffer ≡ drop (on_client_data registered code a).consumed a

  on_read-HasRead :
      (a b : List ℕ) (r : Reader) → HasRead a r → HasRead (a ++ b) (on_read registered r b)
  unfolding on_read
  on_read-HasRead a b r h = elim (Bool-cases r.should_run) [
    | inl on ↦ running on
    | inr off ↦ ended off
  ]
    where
      before : Outcome
      before = on_client_data registered code a

      after : Outcome
      after = on_client_data registered r.code (r.read_buffer ++ b)

      running : r.should_run ≡ true → HasRead (a ++ b) (on_read registered r b)
      running on = rw (on) (record {
        runs = sym (ap (λ d. is_waiting d.status) whole);
        in_step = sym (ap (λ d. d.code) whole);
        dispatched = ap (λ t. t ++ after.events) h.dispatched ∙ sym (ap (λ d. d.events) whole);
        left_over = λ w. rest w;
      })
        where
          waits : before.status ≡ waiting
          waits = is_waiting_lem before.status (sym h.runs ∙ on)

          same : after ≡ on_client_data registered before.code (drop before.consumed a ++ b)
          same =
              ap (λ c. on_client_data registered c (r.read_buffer ++ b)) h.in_step
              ∙ ap (λ t. on_client_data registered before.code (t ++ b)) (h.left_over on)

          whole :
              on_client_data registered code (a ++ b) ≡ prefix before.events before.consumed after
          whole =
              on_client_data-append registered code a b waits
              ∙ ap (prefix before.events before.consumed) (sym same)

          rest :
              is_waiting after.status ≡ true
              → (if is_waiting after.status
                  then drop after.consumed (r.read_buffer ++ b)
                  else r.read_buffer ++ b)
                ≡ drop (on_client_data registered code (a ++ b)).consumed (a ++ b)
          rest w = rw w (
              ap (λ t. drop after.consumed (t ++ b)) (h.left_over on)
              ∙ ap (drop after.consumed)
                  (sym (drop-append_le before.consumed a b (consumed-le registered code a)))
              ∙ drop-drop after.consumed before.consumed (a ++ b)
              ∙ ap (λ d. drop d.consumed (a ++ b)) (sym whole))

      ended : r.should_run ≡ false → HasRead (a ++ b) (on_read registered r b)
      ended off = subst (HasRead (a ++ b)) (sym (on_read_ended registered r b off)) (record {
        runs = h.runs ∙ ap (λ d. is_waiting d.status) (sym over);
        in_step = h.in_step ∙ ap (λ d. d.code) (sym over);
        dispatched = h.dispatched ∙ ap (λ d. d.events) (sym over);
        left_over = λ on. absurd (let p = sym off ∙ on in cc);
      })
        where
          over : on_client_data registered code (a ++ b) ≡ on_client_data registered code a
          over =
              on_client_data-append_threw registered code a b
                (λ w. let p = sym off ∙ h.runs ∙ ap is_waiting w in cc)

  read_loop-HasRead :
      (a : List ℕ) (r : Reader) (reads : List (List ℕ))
      → HasRead a r
      → HasRead (a ++ joined reads) (read_loop registered r reads)
  unfolding read_loop
  read_loop-HasRead a r [] h = rw (append-nil a) h
  read_loop-HasRead a r (bytes ∷ reads) h = rw (← append_assoc a bytes (joined reads)) (
      read_loop-HasRead (a ++ bytes) (on_read registered r bytes) reads
        (on_read-HasRead a bytes r h))

-- A client whose bytes arrive in any number of reads ends up as if OnClientData had been given all
-- of them at once: with the same events and rolling code, running if and only if there was no
-- exception, and if it runs with the unconsumed bytes in its buffer.
pub read_loop_joined :
    (registered : ℕ → Bool) (code : ℕ) (reads : List (List ℕ))
    → HasRead registered code (joined reads) (read_loop registered (begin code) reads)
unfolding begin
read_loop_joined registered code reads =
    read_loop-HasRead registered code [] (begin code) reads (record {
      runs = ap (λ d. is_waiting d.status) (sym none_yet);
      in_step = ap (λ d. d.code) (sym none_yet);
      dispatched = ap (λ d. d.events) (sym none_yet);
      left_over = λ _. sym (drop-nil (on_client_data registered code []).consumed);
    })
  where
    none_yet :
        on_client_data registered code []
        ≡ record { events = []; code = code; consumed = 0; status = waiting }
    none_yet =
        on_client_data_unroll registered code []
        ∙ ap (follow registered code) (read_command-nil registered code)
