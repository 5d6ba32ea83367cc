-- ===== src/Authentication.antt =====
-- AuthenticationService (server/auth). Names and tokens are numbers that stand for texts, 0 for the
-- empty one. The backend is an argument: what it answers for a name and a token, `none` if it has no
-- answer yet.
use alicia_server.Common.{ℕ, Bool, true, false, Option, none, some, List, [], ◌∷◌, ◌++◌}

-- AuthenticationService::Authentication
pub record Authentication : Type 0 where
  pub user_name : ℕ
  pub user_token : ℕ

-- AuthenticationService::Verdict
pub record Verdict : Type 0 where
  pub user_name : ℕ
  pub is_authenticated : Bool

pub record AuthenticationService : Type 0 where
  pub queue : List Authentication
  pub verdicts : List Verdict
  pub has_verdicts : Bool

abbrev pub new_service : AuthenticationService
new_service = record { queue = []; verdicts = []; has_verdicts = false }

-- The verdict on the first request, if the backend has one.
abbrev pub conclude :
    Authentication
    → List Authentication
    → AuthenticationService
    → Option Bool
    → AuthenticationService
conclude request rest s none = s
conclude request rest s (some result) = record {
  queue = rest;
  verdicts =
      s.verdicts ++ (record { user_name = request.user_name; is_authenticated = result } ∷ []);
  has_verdicts = true;
}

-- AuthenticationService::Tick
abbrev pub authenticate_first :
    (backend : ℕ → ℕ → Option Bool)
    → List Authentication
    → AuthenticationService
    → AuthenticationService
authenticate_first backend [] s = s
authenticate_first backend (request ∷ rest) s =
    conclude request rest s (backend request.user_name request.user_token)

unfoldable pub authenticate :
    (backend : ℕ → ℕ → Option Bool) → AuthenticationService → AuthenticationService
authenticate backend s = authenticate_first backend s.queue s

unfoldable pub queue_authentication :
    (user_name user_token : ℕ) → AuthenticationService → AuthenticationService
queue_authentication user_name user_token s = record s {
  queue = s.queue ++ (record { user_name = user_name; user_token = user_token } ∷ []);
}
