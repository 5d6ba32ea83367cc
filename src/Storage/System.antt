-- ===== src/Storage/System.antt =====
-- DataStorage, its consumers and its data source together, as a sequence of operations.
use alicia_server.Common.{
  ℕ, Bool, true, false, ◌&&◌, Option, none, some, List, [], ◌∷◌, if◌then◌else◌, member,
}
use alicia_server.Common.Dict
use alicia_server.Storage.{
  DataStorage, delete, invalidate, create, get_or_create, patch, save, get, tick, terminate,
  new_storage,
}

abbrev pub Source : Type 0 → Type 0
Source D = ℕ → Option D

-- What a call of the store listener comes to: `true`, or `false` with what it leaves in the source.
pub data Written (D : Type 0) : Type 0 where
  done : Written D
  broken : (left : Option D) → Written D

abbrev pub is_broken : {D : Type 0} → Written D → Bool
is_broken done = false
is_broken (broken left) = true

-- `unstored` keeps account of the keys whose last store has failed; nothing reads it.
pub record System (D : Type 0) : Type 0 where
  pub storage : DataStorage D
  pub source : Source D
  pub unstored : ℕ → Bool

abbrev pub new_system : {D : Type 0} → Source D → System D
new_system source = record { storage = new_storage; source = source; unstored = λ key. false }

-- The listeners of the source: `tick` retrieves the records that are reachable, stores come to what
-- `stores` says, and the source deletes where `deletes` is true, and is left as it is otherwise.
pub data Operation (D : Type 0) : Type 0 where
  create_of : ℕ → D → Operation D
  get_or_create_of : ℕ → D → Operation D
  get_of : ℕ → Bool → Operation D
  patch_of : ℕ → (D → D) → Operation D
  invalidate_of : ℕ → Operation D
  delete_of : ℕ → Operation D
  save_of : ℕ → Operation D
  tick_of : (reachable : ℕ → Bool) → (stores : ℕ → Written D) → (deletes : ℕ → Bool) → Operation D
  terminate_of : (stores : ℕ → Written D) → Operation D

abbrev pub written : {D : Type 0} → Option D → Written D → Option D → Option D
written none w old = old
written (some v) done old = some v
written (some v) (broken left) old = left

abbrev pub fails : {D : Type 0} → Option D → Written D → Bool → Bool
fails none w before = before
fails (some v) w before = is_broken w

-- The source after the calls of its store and its delete listener.
abbrev pub write : {D : Type 0} → (ℕ → Written D) → List (ℕ × D) → Source D → Source D
write stores stored source key = written (Dict.find key stored) (stores key) (source key)

abbrev pub remove : {D : Type 0} → (ℕ → Bool) → List ℕ → Source D → Source D
remove deletes deleted source key = if member key deleted && deletes key then none else source key

abbrev pub or_same : {D : Type 0} → DataStorage D → Option (DataStorage D) → DataStorage D
or_same s none = s
or_same s (some s') = s'

module _ {D : Type 0} (blank : D) where
  unfoldable pub step : Operation D → System D → System D
  step (create_of key v) y = record y { storage = or_same y.storage (create blank key v y.storage) }
  step (get_or_create_of key v) y = record y { storage = get_or_create blank key v y.storage }
  step (get_of key retrieve) y = record y { storage = (get blank key retrieve y.storage).0 }
  step (patch_of key f) y = record y { storage = patch blank key f y.storage }
  step (invalidate_of key) y = record y { storage = invalidate blank key y.storage }
  step (delete_of key) y = record y { storage = delete blank key y.storage }
  step (save_of key) y = record y { storage = save blank key y.storage }
  step (tick_of reachable stores deletes) y =
      let (s, calls) =
        tick blank (λ key. if reachable key then y.source key else none) deletes y.storage in
      record {
        storage = s;
        source = remove deletes calls.deleted (write stores calls.stored y.source);
        unstored = λ key. fails (Dict.find key calls.stored) (stores key) (y.unstored key);
      }
  step (terminate_of stores) y =
      let (s, stored) = terminate blank y.storage in
      record {
        storage = s;
        source = write stores stored y.source;
        unstored = λ key. fails (Dict.find key stored) (stores key) (y.unstored key);
      }

  unfoldable pub run : List (Operation D) → System D → System D
  run [] y = y
  run (o ∷ os) y = run os (step o y)
