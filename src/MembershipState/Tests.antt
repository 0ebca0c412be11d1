-- ===== src/MembershipState/Tests.antt =====
-- The membership state at concrete values.
use openraft.Prelude.{ℕ, ◌≡◌, none, some, List, [], ◌∷◌}
use openraft.Prelude.Ord.{nat_ord}
use openraft.MembershipState.Recent.{
  Entry, entry, append_each, last_two_memberships, memberships, append_each-last_two_memberships,
}
use openraft.RaftState.Fixtures as Fixtures
use openraft.RaftState.Fixtures.{id}

abbrev entries : List (Entry ℕ ℕ)
entries =
    entry (id 2 5) (some 4)
    ∷ entry (id 2 6) none
    ∷ entry (id 2 7) (some 5)
    ∷ entry (id 2 8) (some 6)
    ∷ []

append_each-last_two_memberships_example :
    append_each Fixtures.memberships (last_two_memberships entries)
    ≡ append_each Fixtures.memberships (memberships entries)
append_each-last_two_memberships_example =
    append_each-last_two_memberships Fixtures.memberships entries
