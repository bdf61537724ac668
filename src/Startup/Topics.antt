-- ===== src/Startup/Topics.antt =====
-- The topics that `create_synchronizer_config` of main.rs reads from their variable.
use alarms_actions_synchroni.Prelude.{String, List, [], ◌∷◌, ◌≡◌}
use alarms_actions_synchroni.Prelude.Text.Trimming.{join, AllLack, IsTrimmed}

-- Each text of the second list is that of the first without the white characters around it.
abbrev AreTrimmed : List String → List String → Type 0
AreTrimmed [] [] = Unit
AreTrimmed (part ∷ parts) (topic ∷ topics) = IsTrimmed part topic × AreTrimmed parts topics
AreTrimmed _ _ = ⊥

-- The topics are what stands between the commas of the value, without the white characters around.
pub record IsTopicList (value : String) (topics : List String) : Type 0 where
  parts : List String
  joined : join "," parts ≡ value
  no_comma : AllLack "," parts
  trimmed : AreTrimmed parts topics
