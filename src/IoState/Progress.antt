-- ===== src/IoState/Progress.antt =====
-- openraft/src/raft_state/io_state/io_progress.rs: the three cursors of one kind of IO. The
-- assertion of `advance` runs with `debug_assertions` only, and is a hypothesis of the theorems.
use openraft.Prelude.{◌≡◌, true, Option, some, if◌then◌else◌}
use openraft.IoState.PartialOrd.{PartialOrd, option_le, option_lt, option_le_refl, option_le_trans}

pub record IoProgress (T : Type 0) : Type 0 where
  pub accepted : Option T
  pub submitted : Option T
  pub flushed : Option T

unfoldable pub new_synchronized : {T : Type 0} → Option T → IoProgress T
new_synchronized v = record { accepted = v; submitted = v; flushed = v }

module _ {T : Type 0} where
  -- `accept`, `submit` and `flush`, each with its `advance`
  abbrev pub accept : IoProgress T → T → IoProgress T
  accept s new_accepted = record s { accepted = some new_accepted }

  abbrev pub submit : IoProgress T → T → IoProgress T
  submit s new_submitted = record s { submitted = some new_submitted }

  abbrev pub flush : IoProgress T → T → IoProgress T
  flush s new_flushed = record s { flushed = some new_flushed }

module _ {T : Type 0} ⦃p : PartialOrd T⦄ where
  unfoldable pub try_accept : IoProgress T → T → IoProgress T
  try_accept s value = if option_lt s.accepted (some value) then accept s value else s

  unfoldable pub try_submit : IoProgress T → T → IoProgress T
  try_submit s value = if option_lt s.submitted (some value) then submit s value else s

  unfoldable pub try_flush : IoProgress T → T → IoProgress T
  try_flush s value = if option_lt s.flushed (some value) then flush s value else s

  -- the three tests of `try_update_all` are those of the three functions above
  unfoldable pub try_update_all : IoProgress T → T → IoProgress T
  unfolding try_accept try_submit try_flush
  try_update_all s value = try_flush (try_submit (try_accept s value) value) value

  -- what `validate` checks
  pub record IsValid (s : IoProgress T) : Type 0 where
    pub flushed_le : option_le s.flushed s.submitted ≡ true
    pub submitted_le : option_le s.submitted s.accepted ≡ true

  -- A progress whose three cursors start at one value is valid.
  pub new_synchronized-IsValid : (v : Option T) → IsValid (new_synchronized v)
  unfolding new_synchronized
  new_synchronized-IsValid v = record {
    flushed_le = option_le_refl v;
    submitted_le = option_le_refl v;
  }

  -- The cursors stay ordered when each advances no further than the one before it: `accept` by any
  -- value that is not less, `submit` up to the accepted value, `flush` up to the submitted one.
  pub stages-IsValid :
      (s : IoProgress T) (value : T)
      → IsValid s
      → (option_le s.accepted (some value) ≡ true → IsValid (accept s value))
        × (option_le s.submitted (some value) ≡ true
            → option_le (some value) s.accepted ≡ true
            → IsValid (submit s value))
        × (option_le (some value) s.submitted ≡ true → IsValid (flush s value))
  stages-IsValid s value h = (
    λ up. record {
      flushed_le = h.flushed_le;
      submitted_le = option_le_trans s.submitted s.accepted (some value) h.submitted_le up;
    },
    λ up below. record {
      flushed_le = option_le_trans s.flushed s.submitted (some value) h.flushed_le up;
      submitted_le = below;
    },
    λ below. record { flushed_le = below; submitted_le = h.submitted_le },
  )
