-- ===== src/Witness/Members.antt =====
-- The theorems on control entries, in the three-node configuration.
use arbitro_raft.Base.{refl, [], ◌∷◌}
use arbitro_raft.Membership.{ConfigChangeEntry, joint}
use arbitro_raft.Node.Membership.{apply_config_change}
use arbitro_raft.Node.Config.{IsWellFormed, apply_config_change-IsWellFormed}
use arbitro_raft.Node.Removal.{Deposed, final_entry, apply_config_change-removed_leader}
use arbitro_raft.Witness.Memory.{memory, leader_node, one_entry}

abbrev change : ConfigChangeEntry
change = record { phase = joint; old_peers = 1 ∷ 2 ∷ 3 ∷ []; new_peers = 2 ∷ 3 ∷ 4 ∷ [] }

apply_config_change-IsWellFormed_example :
    IsWellFormed (apply_config_change change (leader_node one_entry)).1.config
apply_config_change-IsWellFormed_example =
    apply_config_change-IsWellFormed change (leader_node one_entry) (refl, refl)
      (record { peers_distinct = refl; learners_distinct = refl; apart = refl })

apply_config_change-removed_leader_example :
    Deposed
      (leader_node one_entry)
      (apply_config_change (final_entry (1 ∷ 2 ∷ 3 ∷ []) 2 (3 ∷ [])) (leader_node one_entry)).1
apply_config_change-removed_leader_example =
    apply_config_change-removed_leader (1 ∷ 2 ∷ 3 ∷ []) 2 (3 ∷ []) (leader_node one_entry) refl refl
      refl
