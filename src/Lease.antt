-- ===== src/Lease.antt =====
-- openraft/src/utime.rs: the times of a `Leased<T, I>`, beside the object. A time and a duration are
-- numbers.
use openraft.Prelude.{ℕ, ◌+◌, Bool, true, false, Option, none, some, if◌then◌else◌, ltb}

pub record Lease : Type 0 where
  pub last_update : Option ℕ
  pub lease : ℕ
  pub lease_enabled : Bool

unfoldable pub without_last_update : Lease
without_last_update = record { last_update = none; lease = 0; lease_enabled = true }

-- `Leased::update`
unfoldable pub updated : ℕ → ℕ → Lease
updated now lease = record { last_update = some now; lease = lease; lease_enabled = true }

unfoldable pub disable_lease : Lease → Lease
disable_lease l = record l { lease = 0; lease_enabled = false }

unfoldable pub touch : Lease → ℕ → ℕ → Lease
touch l now lease = record l {
  last_update = some now;
  lease = if l.lease_enabled then lease else l.lease;
}

unfoldable pub is_expired : Lease → ℕ → ℕ → Bool
is_expired l now timeout = elim l.last_update [
  | none ↦ true
  | some utime ↦ ltb (utime + l.lease + timeout) now
]
