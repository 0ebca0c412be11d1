-- ===== src/VecProgress.antt =====
-- The progress of all nodes. `VecProgress` is of the crate `quorum_set`; it is an interface here,
-- with what the engine relies on: an entry is found by its id, an update changes the entry asked
-- for only, and the accepted value is only raised to one that a quorum of the entries has reached.
use openraft.Prelude.{ℕ, ◌≡◌, ◌⊎◌, Bool, true, Option, some, List, [], ◌∷◌, if◌then◌else◌}
use openraft.Prelude.Ord.{nat_ord}

-- A value of a type with the trait `QuorumSet`, by its two methods: the ids that its rule knows, and
-- whether ids form a quorum.
pub record QuorumRule : Type 0 where
  pub ids : List ℕ
  pub is_quorum : List ℕ → Bool

-- an entry of `VecProgress`: its id, and the value that quorums are counted by
pub record ProgressItem (E V : Type 0) : Type 0 where
  pub item_id : E → ℕ
  pub value : E → V
  -- the partial order of the values: `at_least a b` is `a >= b`
  pub at_least : V → V → Bool

module _ {E V : Type 0} ⦃t : ProgressItem E V⦄ where
  -- the ids of the entries whose value is at least `v`
  unfoldable pub reached : V → List E → List ℕ
  reached v [] = []
  reached v (e ∷ es) =
      let rest = reached v es in if t.at_least (t.value e) v then t.item_id e ∷ rest else rest

-- `P` is the type of `VecProgress<E, _>`. An update of an entry answers `None` if there is no entry
-- of the id, and then nothing changes.
pub record VecProgress (P E V : Type 0) ⦃t : ProgressItem E V⦄ : Type 0 where
  pub new : QuorumRule → List ℕ → (ℕ → E) → P
  pub upgrade_quorum_set : P → QuorumRule → List ℕ → (ℕ → E) → P
  pub quorum_set : P → QuorumRule
  pub quorum_accepted : P → V
  pub try_get : P → ℕ → Option E
  pub iter : P → List E
  -- `iter_mut_without_reorder`: the entries are replaced, in their order
  pub with_entries : P → List E → P
  -- the accepted value is counted again
  pub update_entry_with : P → ℕ → (E → E) → Option P
  -- the entry may go back; the accepted value stays
  pub reset_entry_with : P → ℕ → (E → E) → Option P
  -- what is not counted changes
  pub update_data_with : P → ℕ → (E → E) → Option P
  pub iter-with_entries : (p : P) (es : List E) → iter (with_entries p es) ≡ es
  pub quorum_accepted-with_entries :
      (p : P) (es : List E) → quorum_accepted (with_entries p es) ≡ quorum_accepted p
  pub quorum_accepted-reset :
      (p : P) (id : ℕ) (f : E → E) {p' : P}
      → reset_entry_with p id f ≡ some p'
      → quorum_accepted p' ≡ quorum_accepted p
  pub quorum_accepted-update :
      (p : P) (id : ℕ) (f : E → E) {p' : P}
      → update_entry_with p id f ≡ some p'
      → (quorum_accepted p' ≡ quorum_accepted p)
        ⊎ ((quorum_set p').is_quorum (reached (quorum_accepted p') (iter p')) ≡ true)

-- `SendStamp`, whose derived order is that of its fields, and the interface of the progress of the
-- heartbeats' acknowledgments, `VecProgress<IdVal<_, Option<SendStamp>>, QS>`
pub record SendStamp : Type 0 where
  pub time : ℕ
  pub heartbeat_round : ℕ

pub record ClockProgress (CP : Type 0) : Type 0 where
  pub new : QuorumRule → List ℕ → CP
  pub upgrade_quorum_set : CP → QuorumRule → List ℕ → CP
  pub quorum_set : CP → QuorumRule
  pub quorum_accepted : CP → Option SendStamp
  pub try_get : CP → ℕ → Option (Option SendStamp)
  -- the value of the id is raised to this one, if there is an entry of the id
  pub increase_to : CP → ℕ → Option SendStamp → Option CP
