-- ===== src/MembershipState/Recent.antt =====
-- openraft/src/engine/handler/following_handler/mod.rs: `last_two_memberships` and the loop of
-- `append_membership`.
use openraft.Prelude.{
  ◌≡◌, refl, sym, ap, ◌∙◌, Option, none, some, List, [], ◌∷◌, ◌++◌, length, ◌==◌, if◌then◌else◌,
  arith,
}
use mathlib.Core.List.{append-nil}
use openraft.LogId.{LogId}
use openraft.MembershipState.{MembershipState, StoredMembership, append}

-- an entry, by what the engine reads of it; its payload stays with the application
pub data Entry (CLID Mem : Type 0) : Type 0 where
  entry : LogId CLID → Option Mem → Entry CLID Mem

-- `ref_log_id()` and `log_id()`
abbrev pub entry_log_id : {CLID Mem : Type 0} → Entry CLID Mem → LogId CLID
entry_log_id (entry log_id membership) = log_id

module _ {CLID Mem : Type 0} where
  unfoldable pub reverse_onto :
      List (Entry CLID Mem) → List (Entry CLID Mem) → List (Entry CLID Mem)
  reverse_onto [] r = r
  reverse_onto (e ∷ es) r = reverse_onto es (e ∷ r)

  -- the loop over the entries in reverse, which stops at the second membership
  unfoldable pub collect :
      List (Entry CLID Mem) → List (StoredMembership CLID Mem) → List (StoredMembership CLID Mem)
  collect [] found = found
  collect (entry log_id none ∷ es) found = collect es found
  collect (entry log_id (some m) ∷ es) found =
      let inserted = record { log_id = some log_id; membership = m } ∷ found in
      let rest = collect es inserted in if length inserted == 2 then inserted else rest

  unfoldable pub last_two_memberships : List (Entry CLID Mem) → List (StoredMembership CLID Mem)
  unfolding collect reverse_onto
  last_two_memberships entries = collect (reverse_onto entries []) []

  -- `self.state.membership_state.append` for each
  unfoldable pub append_each :
      MembershipState CLID Mem → List (StoredMembership CLID Mem) → MembershipState CLID Mem
  unfolding append
  append_each s [] = s
  append_each s (m ∷ ms) = append_each (append s m) ms

  -- every membership of the entries, in order
  unfoldable pub memberships : List (Entry CLID Mem) → List (StoredMembership CLID Mem)
  memberships [] = []
  memberships (entry log_id none ∷ es) = memberships es
  memberships (entry log_id (some m) ∷ es) =
      record { log_id = some log_id; membership = m } ∷ memberships es

  -- `collect` without its stop
  collect_all :
      List (Entry CLID Mem) → List (StoredMembership CLID Mem) → List (StoredMembership CLID Mem)
  collect_all [] found = found
  collect_all (entry log_id none ∷ es) found = collect_all es found
  collect_all (entry log_id (some m) ∷ es) found =
      collect_all es (record { log_id = some log_id; membership = m } ∷ found)

  collect_all-reverse_onto :
      (es r : List (Entry CLID Mem)) (found : List (StoredMembership CLID Mem))
      → collect_all (reverse_onto es r) found ≡ collect_all r (memberships es ++ found)
  unfolding collect_all reverse_onto memberships
  collect_all-reverse_onto [] r found = refl
  collect_all-reverse_onto (entry log_id none ∷ es) r found =
      collect_all-reverse_onto es (entry log_id none ∷ r) found
  collect_all-reverse_onto (entry log_id (some m) ∷ es) r found =
      collect_all-reverse_onto es (entry log_id (some m) ∷ r) found

  -- once the appended memberships decide the state, earlier ones do not matter
  append_each-collect_all :
      (c : MembershipState CLID Mem) (r : List (Entry CLID Mem))
      (found : List (StoredMembership CLID Mem))
      → ((s : MembershipState CLID Mem) → append_each s found ≡ c)
      → (s : MembershipState CLID Mem) → append_each s (collect_all r found) ≡ c
  unfolding collect_all append_each
  append_each-collect_all c [] found h s = h s
  append_each-collect_all c (entry log_id none ∷ r) found h s =
      append_each-collect_all c r found h s
  append_each-collect_all c (entry log_id (some m) ∷ r) found h s =
      append_each-collect_all c r (record { log_id = some log_id; membership = m } ∷ found)
        (λ s. h (append s (record { log_id = some log_id; membership = m }))) s

  append_each-collect :
      (s : MembershipState CLID Mem) (r : List (Entry CLID Mem))
      (found : List (StoredMembership CLID Mem))
      → append_each s (collect r found) ≡ append_each s (collect_all r found)
  unfolding collect collect_all append_each append
  append_each-collect s [] found = refl
  append_each-collect s (entry log_id none ∷ r) found = append_each-collect s r found
  append_each-collect s (entry log_id (some m) ∷ r) [] =
      append_each-collect s r (record { log_id = some log_id; membership = m } ∷ [])
  append_each-collect s (entry log_id (some m) ∷ r) (a ∷ []) = sym (
      append_each-collect_all
        (record { committed = record { log_id = some log_id; membership = m }; effective = a }) r
        (record { log_id = some log_id; membership = m } ∷ a ∷ []) (λ s. refl) s)
  append_each-collect s (entry log_id (some m) ∷ r) (a ∷ b ∷ found) = ground (
    arith,
    append_each-collect s r (record { log_id = some log_id; membership = m } ∷ a ∷ b ∷ found),
  )

  -- Appending only the last two memberships of the entries leaves the state that appending all of
  -- them does.
  pub append_each-last_two_memberships :
      (s : MembershipState CLID Mem) (entries : List (Entry CLID Mem))
      → append_each s (last_two_memberships entries) ≡ append_each s (memberships entries)
  unfolding last_two_memberships collect_all
  append_each-last_two_memberships s entries =
      append_each-collect s (reverse_onto entries []) []
      ∙ ap (append_each s)
          (collect_all-reverse_onto entries [] [] ∙ append-nil (memberships entries))
