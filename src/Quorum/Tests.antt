-- ===== src/Quorum/Tests.antt =====
-- The rules at concrete sets of nodes.
use openraft.Prelude.{ℕ, ◌≡◌, refl, true, [], ◌∷◌, arith}
use openraft.Prelude.Ord.{nat_ord}
use openraft.Quorum.{contains, shares}
use openraft.Quorum.Threshold
use openraft.Quorum.Threshold.{ThresholdQuorumSet, threshold_quorum_set}
use openraft.Quorum.Threshold.Exact.{threshold_intersects_sound, threshold_intersection}
use openraft.Quorum.Weighted
use openraft.Quorum.Weighted.{
  WeightedQuorumSet, is_quorum-weight_of, weighted_intersects_sound, weight_of, max_weight,
}
use openraft.Quorum.Grid
use openraft.Quorum.Grid.{GridQuorumSet, full_row, one_per_row}
use openraft.Quorum.Grid.Exact.{grid_intersects_sound}
use openraft.Quorum.Joint
use openraft.Quorum.Joint.{Joint, is_quorum-joint_with, joint_intersects_sound}

abbrev old : ThresholdQuorumSet ℕ
old = record { ids = 1 ∷ 2 ∷ 3 ∷ []; quorum_size = 2 }

abbrev new : ThresholdQuorumSet ℕ
new = record { ids = 3 ∷ 4 ∷ 5 ∷ []; quorum_size = 2 }

old-IsValid : Threshold.IsValid old
unfolding contains
old-IsValid = ground arith

new-IsValid : Threshold.IsValid new
unfolding contains
new-IsValid = ground arith

threshold_intersects_sound_example : shares {ID = ℕ} (1 ∷ 2 ∷ []) (2 ∷ 3 ∷ []) ≡ true
threshold_intersects_sound_example =
    threshold_intersects_sound old old (1 ∷ 2 ∷ []) (2 ∷ 3 ∷ []) old-IsValid old-IsValid
      (unfold Threshold.intersects_with in refl) (unfold Threshold.is_quorum in refl)
      (unfold Threshold.is_quorum in refl)

abbrev heavy : WeightedQuorumSet ℕ
heavy = record { weights = (1, 3) ∷ (2, 1) ∷ (3, 1) ∷ []; threshold = 3 }

weighted_intersects_sound_example : shares {ID = ℕ} (1 ∷ []) (1 ∷ 3 ∷ []) ≡ true
weighted_intersects_sound_example =
    weighted_intersects_sound heavy heavy (1 ∷ []) (1 ∷ 3 ∷ [])
      (unfold Weighted.intersects_with in refl) (unfold Weighted.is_quorum in refl)
      (unfold Weighted.is_quorum in refl)

abbrev rows : GridQuorumSet ℕ
rows = record { grid = (1 ∷ 2 ∷ []) ∷ (3 ∷ 4 ∷ []) ∷ []; rule = full_row }

abbrev columns : GridQuorumSet ℕ
columns = record { grid = (1 ∷ 2 ∷ []) ∷ (3 ∷ 4 ∷ []) ∷ []; rule = one_per_row }

grid_intersects_sound_example : shares {ID = ℕ} (3 ∷ 4 ∷ []) (1 ∷ 3 ∷ []) ≡ true
grid_intersects_sound_example =
    grid_intersects_sound rows columns (3 ∷ 4 ∷ []) (1 ∷ 3 ∷ [])
      (unfold Grid.intersects_with in refl) (unfold Grid.is_quorum in refl)
      (unfold Grid.is_quorum in refl)

abbrev before : Joint (ThresholdQuorumSet ℕ)
before = record { parts = old ∷ [] }

abbrev after : Joint (ThresholdQuorumSet ℕ)
after = record { parts = new ∷ [] }

joint_intersects_sound_example : shares {ID = ℕ} (1 ∷ 2 ∷ []) (2 ∷ 3 ∷ []) ≡ true
joint_intersects_sound_example =
    joint_intersects_sound threshold_intersection before before (1 ∷ 2 ∷ []) (2 ∷ 3 ∷ [])
      (old-IsValid, tt) (old-IsValid, tt)
      (unfold Joint.intersects_with Threshold.intersects_with in refl)
      (unfold Joint.is_quorum Threshold.is_quorum in refl)
      (unfold Joint.is_quorum Threshold.is_quorum in refl)
