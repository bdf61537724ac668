-- ===== src/Models/Metadata.antt =====
-- models/metadata/mod.rs. The shared map of `MetadataScope` is the map itself; each function is one
-- critical section of its lock.
use alarms_actions_synchroni.Prelude.{String, Option, []}
use alarms_actions_synchroni.Prelude.HashMap.{HashMap, get, insert}
use alarms_actions_synchroni.Models.Phoebus.{PvMetadata}

abbrev pub MetadataScope : Type 0 → Type 0
MetadataScope V = HashMap (PvMetadata V)

module _ {V : Type 0} where
  -- `MetadataScope::new`
  abbrev pub new_scope : MetadataScope V
  new_scope = []

  unfoldable pub lookup_metadata_by_device : MetadataScope V → String → Option (PvMetadata V)
  lookup_metadata_by_device scope device = get device scope

  unfoldable pub update_cached_metadata : MetadataScope V → String → PvMetadata V → MetadataScope V
  update_cached_metadata scope device new_metadata = insert device new_metadata scope
