-- ===== src/Chat/Examples.antt =====
-- A user who is muted, among others, and says something.
use alicia_server.Common.{◌*◌, ◌^◌, true, false, some, [], ◌∷◌}
use alicia_server.Common.Dict
use alicia_server.Storage.{new_storage}
use alicia_server.Login.{new_lobby}
use alicia_server.Login.Processing.{new_user}
use alicia_server.Infractions.{mute}
use alicia_server.Chat.{Text, Systems}

abbrev hello : Text
hello = 104 ∷ 105 ∷ []

abbrev systems : Systems
systems = record {
  now = 200 * 10 ^ 9;
  lobby = record new_lobby { user_instances = (7, new_user 7 5) ∷ [] };
  infractions_of = λ name. some (1 ∷ []);
  infractions = record new_storage {
    entries =
        (
          1,
          record {
            available = true;
            value = record {
              uid = 1;
              punishment = mute;
              duration = 900;
              created_at = 100 * 10 ^ 9;
            };
          },
        )
        ∷ [];
  };
  words = [];
  regex_match = λ text word. false;
  manager = [];
}
