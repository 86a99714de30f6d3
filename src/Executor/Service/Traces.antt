-- ===== src/Executor/Service/Traces.antt =====
-- Sequences of the steps of the service, and what is counted along them.
use inryeok_bot.Prelude.{ℕ, ◌+◌, String, Bool, true, false, ◌&&◌, ◌||◌, not, List, [], ◌∷◌, str_eq}
use inryeok_bot.Executor.Records.{has_file, Reading, hidden}
use inryeok_bot.Executor.Service.{Service, Event, arrives, damaged, step, launches}

abbrev pub one_if : Bool → ℕ
one_if true = 1
one_if false = 0

abbrev pub is_hidden : Reading → Bool
is_hidden hidden = true
is_hidden _ = false

module _ (sha256 : List String → String) (decimal : ℕ → String) where
  -- A request that sees none of the state directory.
  abbrev pub is_blind : Event sha256 decimal → Bool
  is_blind (arrives e r) = is_hidden e.reading
  is_blind _ = false

  -- The event sees no record, or removes the one of the id.
  abbrev pub loses : String → Event sha256 decimal → Service → Bool
  loses id e s =
      is_blind e || has_file id s.files && not (has_file id (step sha256 decimal e s).files)

  abbrev pub damages : String → Event sha256 decimal → Bool
  damages id (damaged other) = str_eq other id
  damages id _ = false

  abbrev pub run : List (Event sha256 decimal) → Service → Service
  run [] s = s
  run (e ∷ es) s = run es (step sha256 decimal e s)

  abbrev pub launch_count : String → List (Event sha256 decimal) → Service → ℕ
  launch_count id [] s = 0
  launch_count id (e ∷ es) s =
      one_if (launches sha256 decimal id e s) + launch_count id es (step sha256 decimal e s)

  abbrev pub loss_count : String → List (Event sha256 decimal) → Service → ℕ
  loss_count id [] s = 0
  loss_count id (e ∷ es) s = one_if (loses id e s) + loss_count id es (step sha256 decimal e s)

  abbrev pub damage_count : String → List (Event sha256 decimal) → ℕ
  damage_count id [] = 0
  damage_count id (e ∷ es) = one_if (damages id e) + damage_count id es
