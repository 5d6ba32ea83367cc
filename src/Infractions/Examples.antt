-- ===== src/Infractions/Examples.antt =====
-- A user with two mutes, a ban that is over and one for ever.
use alicia_server.Common.{
  arith, ◌*◌, ◌^◌, List, All, inl, inr, ◌≡◌, refl, true, false, some, [], ◌∷◌,
}
use alicia_server.Common.Dict
use alicia_server.Storage.{DataStorage, new_storage, get, get_many}
use alicia_server.Infractions.{
  Infraction, blank_infraction, mute, ban, verdict, check_outstanding_punishments, expires_at,
  is_expired, max_duration,
}
use alicia_server.Infractions.Active.{Fits, check_outstanding_punishments-any_active}

abbrev long_mute : Infraction
long_mute = record { uid = 1; punishment = mute; duration = 900; created_at = 100 * 10 ^ 9 }

abbrev short_mute : Infraction
short_mute = record { uid = 2; punishment = mute; duration = 100; created_at = 150 * 10 ^ 9 }

abbrev old_ban : Infraction
old_ban = record { uid = 3; punishment = ban; duration = 50; created_at = 100 * 10 ^ 9 }

abbrev ban_for_ever : Infraction
ban_for_ever = record {
  uid = 4;
  punishment = ban;
  duration = max_duration;
  created_at = 120 * 10 ^ 9;
}

abbrev cache : DataStorage Infraction
cache = record new_storage {
  entries =
      (1, record { available = true; value = long_mute })
      ∷ (2, record { available = true; value = short_mute })
      ∷ (3, record { available = true; value = old_ban })
      ∷ (4, record { available = true; value = ban_for_ever })
      ∷ [];
}

abbrev all : List Infraction
all = long_mute ∷ short_mute ∷ old_ban ∷ ban_for_ever ∷ []

all_found : (get_many blank_infraction (1 ∷ 2 ∷ 3 ∷ 4 ∷ []) cache).1 ≡ some all
unfolding get_many get Dict.find Dict.try_emplace
all_found = refl

all-Fits : All Fits all
all-Fits = (inr (omega arith), (inr (omega arith), (inr (omega arith), (inl refl, tt))))

-- The mute is said to end after 250 seconds, although the longer one ends after 1000.
check_outstanding_punishments-any_active_example :
    (check_outstanding_punishments (200 * 10 ^ 9) (some (1 ∷ 2 ∷ 3 ∷ 4 ∷ [])) cache).1
    ≡ verdict record {
      mute_active = true;
      mute_expires_at = 250 * 10 ^ 9;
      prevent_server_joining = true;
      prevent_room_joining = false;
      prevent_breeding = false;
    }
unfolding expires_at
check_outstanding_punishments-any_active_example =
    check_outstanding_punishments-any_active (200 * 10 ^ 9) (1 ∷ 2 ∷ 3 ∷ 4 ∷ []) cache all
      (omega arith) all-Fits all_found

-- A mute of 300 years is over as soon as it is given.
abbrev three_centuries : Infraction
three_centuries = record {
  uid = 5;
  punishment = mute;
  duration = 300 * 365 * 24 * 3600;
  created_at = 100 * 10 ^ 9;
}

three_centuries_over : is_expired (101 * 10 ^ 9) three_centuries ≡ true
unfolding is_expired expires_at
three_centuries_over = refl
