-- ===== src/IoState/Monotonic.antt =====
-- openraft/src/raft_state/io_state/monotonic.rs: a value that only increases.
use openraft.Prelude.{◌≡◌, true, Option, some, arith, if◌then◌else◌}
use openraft.IoState.PartialOrd.{PartialOrd, option_le, option_gt, option_le_refl, option_gt→le}

pub record MonotonicIncrease (T : Type 0) : Type 0 where
  pub value : Option T

-- `Result<Option<T>, Option<&T>>`: the replaced value, or the present one
pub data Update (T : Type 0) : Type 0 where
  replaced : Option T → Update T
  kept : Option T → Update T

module _ {T : Type 0} ⦃p : PartialOrd T⦄ where
  unfoldable pub try_update_option : MonotonicIncrease T → Option T → MonotonicIncrease T × Update T
  try_update_option s new_value =
      if option_gt new_value s.value
      then (record { value = new_value }, replaced s.value)
      else (s, kept s.value)

  unfoldable pub try_update : MonotonicIncrease T → T → MonotonicIncrease T × Update T
  unfolding try_update_option
  try_update s new_value = try_update_option s (some new_value)

  -- An update never decreases the value.
  pub try_update_le :
      (s : MonotonicIncrease T) (v : T) → option_le s.value (try_update s v).0.value ≡ true
  unfolding try_update
  try_update_le s v = ground (arith, option_gt→le (some v) s.value, option_le_refl s.value)
