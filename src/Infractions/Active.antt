-- ===== src/Infractions/Active.antt =====
-- The verdict on a user, described by the infractions that are still active.
use alicia_server.Common.{
  ℕ, ◌≡◌, ◌⊎◌, inl, inr, ◌+◌, ◌*◌, ◌^◌, ◌<◌, All, arith, ltb, ◌==◌, refl, ap, ◌∙◌, Bool, true,
  false, not, ◌&&◌, ◌||◌, some, List, [], ◌∷◌, if◌then◌else◌,
}
use alicia_server.Storage.{DataStorage, get_many}
use alicia_server.Infractions.{
  max_duration, blank_infraction, outcome, verdict, check_outstanding_punishments, Punishment,
  no_punishment, mute, ban, Infraction, Verdict, no_verdict, expires_at, is_expired, punish,
  check_all,
}

abbrev pub is_ban : Punishment → Bool
is_ban no_punishment = false
is_ban mute = false
is_ban ban = true

abbrev pub is_mute : Punishment → Bool
is_mute no_punishment = false
is_mute mute = true
is_mute ban = false

-- Whether there is one of a kind that is not over.
abbrev pub any_active : (Infraction → Bool) → (Punishment → Bool) → List Infraction → Bool
any_active over kind [] = false
any_active over kind (i ∷ is) = (not (over i) && kind i.punishment) || any_active over kind is

-- When the last mute that is not over ends.
abbrev pub last_mute : (Infraction → Bool) → List Infraction → ℕ → ℕ
last_mute over [] t = t
last_mute over (i ∷ is) t =
    last_mute over is (if not (over i) && is_mute i.punishment then expires_at i else t)

-- An infraction for ever is never over, and another one when its end, without any bound, is past.
abbrev pub is_over : (now : ℕ) → Infraction → Bool
is_over now i =
    if i.duration == max_duration then false else ltb (i.created_at + i.duration * 10 ^ 9) now

-- An infraction for ever, or one that was created and ends before the clock's last moment, in 2262.
abbrev pub Fits : Infraction → Type 0
Fits i = (i.duration ≡ max_duration) ⊎ (i.created_at + i.duration * 10 ^ 9 < 2 ^ 63)

is_expired-is_over :
    (now : ℕ) (i : Infraction) → now < 2 ^ 63 → Fits i → is_expired now i ≡ is_over now i
unfolding is_expired expires_at
is_expired-is_over now i h (inl ever) = ground arith
is_expired-is_over now i h (inr fits) = ground arith

or_false : (b : Bool) → b ≡ (b || false)
or_false true = refl
or_false false = refl

or_true : (b : Bool) → true ≡ (b || true)
or_true true = refl
or_true false = refl

-- One infraction, in front of others that are active mutes (`a`) or bans (`b`).
noted :
    (now : ℕ) (is : List Infraction) (a b expired : Bool) (i : Infraction) (p : Punishment)
    (v : Verdict)
    → let w = if expired then v else punish i p v in
      record w {
        mute_active = w.mute_active || a;
        mute_expires_at = last_mute (is_expired now) is w.mute_expires_at;
        prevent_server_joining = w.prevent_server_joining || b;
      }
      ≡ record v {
        mute_active = v.mute_active || ((not expired && is_mute p) || a);
        mute_expires_at =
            last_mute
              (is_expired now)
              is
              (if not expired && is_mute p then expires_at i else v.mute_expires_at);
        prevent_server_joining = v.prevent_server_joining || ((not expired && is_ban p) || b);
      }
unfolding punish
noted now is a b true i p v = refl
noted now is a b false i no_punishment v = refl
noted now is a b false i mute v = λ j. record v {
  mute_active = or_true v.mute_active j;
  mute_expires_at = last_mute (is_expired now) is (expires_at i);
  prevent_server_joining = v.prevent_server_joining || b;
}
noted now is a b false i ban v = λ j. record v {
  mute_active = v.mute_active || a;
  mute_expires_at = last_mute (is_expired now) is v.mute_expires_at;
  prevent_server_joining = or_true v.prevent_server_joining j;
}

check_all-any_active :
    (now : ℕ) (is : List Infraction) (v : Verdict)
    → check_all now is v ≡ record v {
      mute_active = v.mute_active || any_active (is_expired now) is_mute is;
      mute_expires_at = last_mute (is_expired now) is v.mute_expires_at;
      prevent_server_joining = v.prevent_server_joining || any_active (is_expired now) is_ban is;
    }
unfolding check_all
check_all-any_active now [] v = λ j. record v {
  mute_active = or_false v.mute_active j;
  prevent_server_joining = or_false v.prevent_server_joining j;
}
check_all-any_active now (i ∷ is) v =
    check_all-any_active now is (if is_expired now i then v else punish i i.punishment v)
    ∙ noted now is (any_active (is_expired now) is_mute is) (any_active (is_expired now) is_ban is)
        (is_expired now i) i i.punishment v

any_active-same :
    (f g : Infraction → Bool) (kind : Punishment → Bool) (is : List Infraction)
    → All (λ i. f i ≡ g i) is
    → any_active f kind is ≡ any_active g kind is
any_active-same f g kind [] h = refl
any_active-same f g kind (i ∷ is) h =
    λ j. (not (h.0 j) && kind i.punishment) || any_active-same f g kind is h.1 j

last_mute-same :
    (f g : Infraction → Bool) (is : List Infraction) (t : ℕ)
    → All (λ i. f i ≡ g i) is
    → last_mute f is t ≡ last_mute g is t
last_mute-same f g [] t h = refl
last_mute-same f g (i ∷ is) t h =
    last_mute-same f g is (if not (f i) && is_mute i.punishment then expires_at i else t) h.1
    ∙ ap (λ b. last_mute g is (if not b && is_mute i.punishment then expires_at i else t)) h.0

is_expired-all :
    (now : ℕ) (is : List Infraction)
    → now < 2 ^ 63
    → All Fits is
    → All (λ i. is_expired now i ≡ is_over now i) is
is_expired-all now [] h fit = tt
is_expired-all now (i ∷ is) h fit =
    (is_expired-is_over now i h fit.0, is_expired-all now is h fit.1)

-- The verdict by the test that the code makes, whatever the durations.
pub check_outstanding_punishments-is_expired :
    (now : ℕ) (uids : List ℕ) (cache : DataStorage Infraction) (is : List Infraction)
    → (get_many blank_infraction uids cache).1 ≡ some is
    → (check_outstanding_punishments now (some uids) cache).1
      ≡ verdict record {
        mute_active = any_active (is_expired now) is_mute is;
        mute_expires_at = last_mute (is_expired now) is 0;
        prevent_server_joining = any_active (is_expired now) is_ban is;
        prevent_room_joining = false;
        prevent_breeding = false;
      }
unfolding check_outstanding_punishments
check_outstanding_punishments-is_expired now uids cache is e =
    ap (outcome now) e ∙ ap verdict (check_all-any_active now is no_verdict)

-- If the infractions of a user are all available, each lasts for ever or ends, as does the present,
-- before the last moment of the 64-bit clock, then the user is muted exactly when one of them is a
-- mute that lasts for ever or whose end is not past, and kept from the server exactly when one is
-- such a ban; the mute is said to end when the last such mute of the list ends, by a 64-bit sum
-- that for one that lasts for ever wraps around, and nothing else is prevented.
pub check_outstanding_punishments-any_active :
    (now : ℕ) (uids : List ℕ) (cache : DataStorage Infraction) (is : List Infraction)
    → now < 2 ^ 63
    → All Fits is
    → (get_many blank_infraction uids cache).1 ≡ some is
    → (check_outstanding_punishments now (some uids) cache).1
      ≡ verdict record {
        mute_active = any_active (is_over now) is_mute is;
        mute_expires_at = last_mute (is_over now) is 0;
        prevent_server_joining = any_active (is_over now) is_ban is;
        prevent_room_joining = false;
        prevent_breeding = false;
      }
check_outstanding_punishments-any_active now uids cache is h fit e =
    let same = is_expired-all now is h fit in
    check_outstanding_punishments-is_expired now uids cache is e ∙ (λ j. verdict record {
      mute_active = any_active-same (is_expired now) (is_over now) is_mute is same j;
      mute_expires_at = last_mute-same (is_expired now) (is_over now) is 0 same j;
      prevent_server_joining = any_active-same (is_expired now) (is_over now) is_ban is same j;
      prevent_room_joining = false;
      prevent_breeding = false;
    })
