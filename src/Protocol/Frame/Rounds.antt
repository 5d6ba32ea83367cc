-- ===== src/Protocol/Frame/Rounds.antt =====
-- The loop of OnClientData round by round: what a round takes off, that the fuel does not matter,
-- and the induction over the rounds.
use alicia_server.Common.{
  ℕ, zero, suc, ◌+◌, ◌-◌, ◌≤◌, ◌<◌, ◌≡◌, refl, ap, ◌≢◌, Bool, List, [], ◌∷◌, ◌++◌, length, take,
  drop, length-append, length-drop, length-take, arith, take-append_le, drop-append_le,
}
use alicia_server.Protocol.Magic.{MessageMagic, decode_message_magic}
use alicia_server.Protocol.Frame.{
  Round, wait, throw, next, Error, Event, waiting, threw, Outcome, le_u32, process_data, read_body,
  read_command, command_loop, on_client_data,
}

-- A command of a round takes off as many bytes as it says, and at least a magic.
abbrev pub Shrinks : List ℕ → Round → Type 0
Shrinks bytes wait = Unit {0}
Shrinks bytes (throw c e) = Unit {0}
Shrinks bytes (next c e size rest) = (4 ≤ size) × (size ≤ length bytes) × (drop size bytes ≡ rest)

-- The round, with more bytes behind it.
abbrev pub extend : Round → List ℕ → Round
extend wait more = wait
extend (throw c e) more = throw c e
extend (next c e size rest) more = next c e size (rest ++ more)

-- An outcome behind `n` bytes more, whose commands had led to `events`.
abbrev pub prefix : List Event → ℕ → Outcome → Outcome
prefix events n r = record r { events = events ++ r.events; consumed = n + r.consumed }

module _ (registered : ℕ → Bool) where
  process_data-Shrinks :
      (code id b0 b1 b2 b3 n : ℕ) (taken body : List ℕ)
      → length taken ≡ n
      → n ≤ length body
      → Shrinks (b0 ∷ b1 ∷ b2 ∷ b3 ∷ body) (process_data registered code id taken (drop n body))
  unfolding process_data
  process_data-Shrinks code id b0 b1 b2 b3 n [] body e h =
      (omega arith, omega arith, ap (λ t. drop t body) e)
  process_data-Shrinks code id b0 b1 b2 b3 n (b ∷ bs) body e h = ground (arith, four)
    where
      whole : 4 + suc (length bs) ≡ suc (suc (suc (suc n)))
      whole = omega (arith, e)

      four : drop (4 + suc (length bs)) (b0 ∷ b1 ∷ b2 ∷ b3 ∷ body) ≡ drop n body
      four = ap (λ t. drop t (b0 ∷ b1 ∷ b2 ∷ b3 ∷ body)) whole

  process_data-extend :
      (code id : ℕ) (taken rest more : List ℕ)
      → process_data registered code id taken (rest ++ more)
        ≡ extend (process_data registered code id taken rest) more
  unfolding process_data
  process_data-extend code id [] rest more = refl
  process_data-extend code id (b ∷ bs) rest more = ground arith

  read_body-extend :
      (code : ℕ) (magic : MessageMagic) (body more : List ℕ)
      → read_body registered code magic body ≢ wait
      → read_body registered code magic (body ++ more)
        ≡ extend (read_body registered code magic body) more
  unfolding read_body
  read_body-extend code magic body more h = ground (
    arith,
    length-append body more,
    take-append_le (magic.length - 4) body more,
    drop-append_le (magic.length - 4) body more,
    process_data-extend code magic.id (take (magic.length - 4) body) (drop (magic.length - 4) body)
        more,
  )

  read_body-Shrinks :
      (code b0 b1 b2 b3 : ℕ) (magic : MessageMagic) (body : List ℕ)
      → Shrinks (b0 ∷ b1 ∷ b2 ∷ b3 ∷ body) (read_body registered code magic body)
  unfolding read_body
  read_body-Shrinks code b0 b1 b2 b3 magic body = ground (
    arith,
    length-take (magic.length - 4) body,
    process_data-Shrinks code magic.id b0 b1 b2 b3 (magic.length - 4) (take (magic.length - 4) body)
        body,
  )

  read_command-Shrinks :
      (code : ℕ) (bytes : List ℕ) → Shrinks bytes (read_command registered code bytes)
  unfolding read_command
  read_command-Shrinks code (b0 ∷ b1 ∷ b2 ∷ b3 ∷ body) =
      read_body-Shrinks code b0 b1 b2 b3 (decode_message_magic (le_u32 b0 b1 b2 b3)) body
  read_command-Shrinks code [] = tt
  read_command-Shrinks code (_ ∷ []) = tt
  read_command-Shrinks code (_ ∷ _ ∷ []) = tt
  read_command-Shrinks code (_ ∷ _ ∷ _ ∷ []) = tt

  pub read_command-extend :
      (code : ℕ) (bytes more : List ℕ)
      → read_command registered code bytes ≢ wait
      → read_command registered code (bytes ++ more)
        ≡ extend (read_command registered code bytes) more
  unfolding read_command
  read_command-extend code (b0 ∷ b1 ∷ b2 ∷ b3 ∷ body) more h =
      read_body-extend code (decode_message_magic (le_u32 b0 b1 b2 b3)) body more h
  read_command-extend code [] more h = absurd (h refl)
  read_command-extend code (_ ∷ []) more h = absurd (h refl)
  read_command-extend code (_ ∷ _ ∷ []) more h = absurd (h refl)
  read_command-extend code (_ ∷ _ ∷ _ ∷ []) more h = absurd (h refl)

  pub next-Shrinks :
      (code : ℕ) {c size : ℕ} {x : Event} (bytes : List ℕ) {rest : List ℕ}
      → read_command registered code bytes ≡ next c x size rest
      → (4 ≤ size) × (size + length rest ≡ length bytes) × (drop size bytes ≡ rest)
  next-Shrinks code {size} bytes e =
      let s = rw e at (read_command-Shrinks code bytes) in
      (s.0, omega (arith, s, ap length s.2, length-drop size bytes), s.2)

  -- With more fuel than bytes the fuel does not matter.
  command_loop_fuel :
      (f g code : ℕ) (bytes : List ℕ)
      → length bytes < f
      → length bytes < g
      → command_loop registered f code bytes ≡ command_loop registered g code bytes
  unfolding command_loop
  command_loop_fuel zero g code bytes hf hg = absurd (omega arith)
  command_loop_fuel (suc f) zero code bytes hf hg = absurd (omega arith)
  command_loop_fuel (suc f) (suc g) code bytes hf hg =
      go (read_command registered code bytes) refl (command_loop_fuel f g)
    where
      go :
          (r : Round)
          → read_command registered code bytes ≡ r
          → ((c : ℕ) (rest : List ℕ)
              → length rest < f
              → length rest < g
              → command_loop registered f c rest ≡ command_loop registered g c rest)
          → command_loop registered (suc f) code bytes ≡ command_loop registered (suc g) code bytes
      go wait e ih = rw (e, command_loop)
      go (throw c x) e ih = rw (e, command_loop)
      go (next c x size rest) e ih =
          let s = next-Shrinks code bytes e in
          rw (e, command_loop, ih c rest (omega (arith, s)) (omega (arith, s)))

  -- What one round contributes to the outcome.
  abbrev pub follow : ℕ → Round → Outcome
  follow code wait = record { events = []; code = code; consumed = 0; status = waiting }
  follow code (throw c x) = record { events = []; code = c; consumed = 0; status = threw x }
  follow code (next c x size rest) = prefix (x ∷ []) size (on_client_data registered c rest)

  -- The loop without its fuel.
  pub on_client_data_unroll :
      (code : ℕ) (bytes : List ℕ)
      → on_client_data registered code bytes ≡ follow code (read_command registered code bytes)
  unfolding on_client_data
  on_client_data_unroll code bytes = go (read_command registered code bytes) refl
    where
      go :
          (r : Round)
          → read_command registered code bytes ≡ r
          → on_client_data registered code bytes ≡ follow code (read_command registered code bytes)
      go wait e = rw (e, command_loop)
      go (throw c x) e = rw (e, command_loop)
      go (next c x size rest) e =
          let s = next-Shrinks code bytes e in
          rw (
            e,
            command_loop,
            command_loop_fuel (length bytes) (suc (length rest)) c rest (omega (arith, s))
                (omega arith),
          )

  -- Induction over the rounds of the loop.
  rounds_fuel {ℓ} :
      (P : ℕ → List ℕ → Type ℓ)
      → ((code : ℕ) (bytes : List ℕ) → read_command registered code bytes ≡ wait → P code bytes)
      → ((code c : ℕ) (bytes : List ℕ) (x : Error)
          → read_command registered code bytes ≡ throw c x
          → P code bytes)
      → ((code c size : ℕ) (bytes rest : List ℕ) (x : Event)
          → read_command registered code bytes ≡ next c x size rest
          → P c rest
          → P code bytes)
      → (k code : ℕ) (bytes : List ℕ) → length bytes < k
      → P code bytes
  rounds_fuel P waits throws goes_on zero code bytes h = absurd (omega arith)
  rounds_fuel P waits throws goes_on (suc k) code bytes h =
      go (read_command registered code bytes) refl (rounds_fuel P waits throws goes_on k)
    where
      go :
          (r : Round)
          → read_command registered code bytes ≡ r
          → ((c : ℕ) (rest : List ℕ) → length rest < k → P c rest)
          → P code bytes
      go wait e ih = waits code bytes e
      go (throw c x) e ih = throws code c bytes x e
      go (next c x size rest) e ih =
          goes_on code c size bytes rest x e
            (ih c rest (let s = next-Shrinks code bytes e in omega (arith, s)))

  pub rounds {ℓ} :
      (P : ℕ → List ℕ → Type ℓ)
      → ((code : ℕ) (bytes : List ℕ) → read_command registered code bytes ≡ wait → P code bytes)
      → ((code c : ℕ) (bytes : List ℕ) (x : Error)
          → read_command registered code bytes ≡ throw c x
          → P code bytes)
      → ((code c size : ℕ) (bytes rest : List ℕ) (x : Event)
          → read_command registered code bytes ≡ next c x size rest
          → P c rest
          → P code bytes)
      → (code : ℕ) (bytes : List ℕ) → P code bytes
  rounds P waits throws goes_on code bytes =
      rounds_fuel P waits throws goes_on (suc (length bytes)) code bytes (omega arith)

pub read_command-nil : (registered : ℕ → Bool) (code : ℕ) → read_command registered code [] ≡ wait
unfolding read_command
read_command-nil registered code = refl
