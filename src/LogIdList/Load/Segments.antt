-- ===== src/LogIdList/Load/Segments.antt =====
-- The loop of `get_key_log_ids`, one segment of its stack at a time.
use openraft.Prelude.{
  ℕ, zero, suc, ◌+◌, ◌*◌, ◌-◌, ◌/◌, ◌≤◌, ◌<◌, ◌≡◌, refl, true, false, Option, some, List, [], ◌∷◌,
  ltb, ◌==◌, if◌then◌else◌, arith, Bool-cases, inl, inr, ◌∙◌, ap,
}
use openraft.Prelude.Ord.{Ord}
use openraft.LogId.{LogId}
use openraft.LogIdList.{push_key_log_id, same_leader}
use openraft.LogIdList.Load.{done, rounds, get_key_log_ids}
use openraft.LogIdList.Load.Correct.{IsRunsOf, IsMonotone, at, push-IsRunsOf}

module _ {CLID : Type 0} ⦃o : Ord CLID⦄ (sto : ℕ → Option (LogId CLID)) where
  rounds_same :
      (fuel : ℕ) (x y : LogId CLID) (stack : List (LogId CLID × LogId CLID))
      (keys : List (LogId CLID))
      → same_leader x y ≡ true
      → rounds (suc fuel) sto ((x, y) ∷ stack) keys ≡ rounds fuel sto stack (push_key_log_id keys y)
  unfolding rounds
  rounds_same fuel x y stack keys e = ground arith

  rounds_adjacent :
      (fuel : ℕ) (x y : LogId CLID) (stack : List (LogId CLID × LogId CLID))
      (keys : List (LogId CLID))
      → same_leader x y ≡ false
      → (suc x.index == y.index) ≡ true
      → rounds (suc fuel) sto ((x, y) ∷ stack) keys
        ≡ rounds fuel sto stack (push_key_log_id (push_key_log_id keys x) y)
  unfolding rounds
  rounds_adjacent fuel x y stack keys e f = ground arith

  rounds_mid :
      (fuel : ℕ) (x y mid : LogId CLID) (stack : List (LogId CLID × LogId CLID))
      (keys : List (LogId CLID))
      → same_leader x y ≡ false
      → (suc x.index == y.index) ≡ false
      → sto ((x.index + y.index) / 2) ≡ some mid
      → rounds (suc fuel) sto ((x, y) ∷ stack) keys ≡ (
          if same_leader x mid
          then rounds fuel sto ((mid, y) ∷ stack) keys
          else rounds fuel sto ((x, mid) ∷ (mid, y) ∷ stack) keys)
  unfolding rounds
  rounds_mid fuel x y mid stack keys e f g = ground arith

  rounds_end :
      (fuel : ℕ) (keys : List (LogId CLID)) → 0 < fuel → rounds fuel sto [] keys ≡ done keys
  unfolding rounds
  rounds_end zero keys h = absurd (omega arith)
  rounds_end (suc fuel) keys h = refl

  module _ (leader : ℕ → CLID) (start stop : ℕ) (m : IsMonotone leader)
      (reads : (i : ℕ) → start ≤ i → i ≤ stop → sto i ≡ some (at leader i)) where
    -- a log between two log ids of one leader is of that leader
    squeeze : (i j k : ℕ) → i ≤ j → j ≤ k → leader i ≡ leader k → leader j ≡ leader k
    squeeze i j k p q e = ground (
      arith,
      m i j,
      m j k,
      o.cmp_eq (leader j) (leader k),
      o.cmp_swap (leader i) (leader j),
      o.cmp_swap (leader j) (leader k),
    )

    -- What the loop has done when the segment `(a, b)` is off the stack: the keys reach `b`, within
    -- `2 * (b - a) - 1` rounds.
    record Done (a b fuel : ℕ) (stack : List (LogId CLID × LogId CLID)) (keys : List (LogId CLID))
        : Type 0 where
      fuel' : ℕ
      keys' : List (LogId CLID)
      spent : fuel < fuel' + 2 * (b - a)
      runs : IsRunsOf leader start (suc b) keys'
      steps :
          rounds fuel sto ((at leader a, at leader b) ∷ stack) keys ≡ rounds fuel' sto stack keys'

    -- both halves, when the middle is of another leader; or the right half
    Segment : ℕ → Type 0
    Segment n =
        (a b end fuel : ℕ) (stack : List (LogId CLID × LogId CLID)) (keys : List (LogId CLID))
        → b - a ≤ n
        → a < b
        → b ≤ stop
        → start ≤ a
        → IsRunsOf leader start end keys
        → end ≤ suc a
        → ((j : ℕ) → end ≤ j → j ≤ a → leader j ≡ leader a)
        → 2 * (b - a) ≤ suc fuel
        → Done a b fuel stack keys

    Segment-left :
        (n a c b end fuel : ℕ) (stack : List (LogId CLID × LogId CLID)) (keys : List (LogId CLID))
        → Segment n
        → b - a ≤ suc n
        → a < c
        → c < b
        → b ≤ stop
        → start ≤ a
        → IsRunsOf leader start end keys
        → end ≤ suc a
        → ((j : ℕ) → end ≤ j → j ≤ a → leader j ≡ leader a)
        → 2 * (b - a) ≤ suc (suc fuel)
        → rounds (suc fuel) sto ((at leader a, at leader b) ∷ stack) keys
          ≡ rounds fuel sto ((at leader c, at leader b) ∷ stack) keys
        → same_leader (at leader a) (at leader c) ≡ true
        → Done a b (suc fuel) stack keys
    unfolding Segment
    Segment-left n a c b end fuel stack keys ih d g h z s r p f e step same =
        let t =
          ih c b end fuel stack keys (omega arith) h z (omega arith) r (omega arith)
            (λ j u v. ground (arith, o.cmp_eq (leader a) (leader c), f j, squeeze a j c))
            (omega arith) in
        record {
          fuel' = t.fuel';
          keys' = t.keys';
          spent = omega (arith, t.spent);
          runs = t.runs;
          steps = step ∙ t.steps;
        }

    Segment-both :
        (n a c b end fuel : ℕ) (stack : List (LogId CLID × LogId CLID)) (keys : List (LogId CLID))
        → Segment n
        → b - a ≤ suc n
        → a < c
        → c < b
        → b ≤ stop
        → start ≤ a
        → IsRunsOf leader start end keys
        → end ≤ suc a
        → ((j : ℕ) → end ≤ j → j ≤ a → leader j ≡ leader a)
        → 2 * (b - a) ≤ suc (suc fuel)
        → rounds (suc fuel) sto ((at leader a, at leader b) ∷ stack) keys
          ≡ rounds fuel sto ((at leader a, at leader c) ∷ (at leader c, at leader b) ∷ stack) keys
        → Done a b (suc fuel) stack keys
    unfolding Segment
    Segment-both n a c b end fuel stack keys ih d g h z s r p f e step =
        let t =
          ih a c end fuel ((at leader c, at leader b) ∷ stack) keys (omega arith) g (omega arith) s
            r p f (omega arith) in
        let u =
          ih c b (suc c) t.fuel' stack t.keys' (omega arith) h z (omega arith) t.runs (omega arith)
            (λ j v w. absurd (omega arith)) (omega (arith, t.spent)) in
        record {
          fuel' = u.fuel';
          keys' = u.keys';
          spent = omega (arith, t.spent, u.spent);
          runs = u.runs;
          steps = step ∙ t.steps ∙ u.steps;
        }

    Segment-far :
        (n a b end fuel : ℕ) (stack : List (LogId CLID × LogId CLID)) (keys : List (LogId CLID))
        → Segment n
        → b - a ≤ suc n
        → suc a < b
        → b ≤ stop
        → start ≤ a
        → IsRunsOf leader start end keys
        → end ≤ suc a
        → ((j : ℕ) → end ≤ j → j ≤ a → leader j ≡ leader a)
        → 2 * (b - a) ≤ suc (suc fuel)
        → same_leader (at leader a) (at leader b) ≡ false
        → Done a b (suc fuel) stack keys
    Segment-far n a b end fuel stack keys ih d g z s r p f e differ =
        let c : ℕ = (a + b) / 2 in
        let step =
          rounds_mid fuel (at leader a) (at leader b) (at leader c) stack keys differ (ground arith)
            (reads c (omega arith) (omega arith)) in
        elim (Bool-cases (same_leader (at leader a) (at leader c))) [
          | inl same ↦
              Segment-left n a c b end fuel stack keys ih d (omega arith) (omega arith) z s r p f e
                (rw same at step) same
          | inr other ↦
              Segment-both n a c b end fuel stack keys ih d (omega arith) (omega arith) z s r p f e
                (rw other at step)
        ]

    segment : (n : ℕ) → Segment n
    unfolding Segment
    segment zero a b end fuel stack keys d lt' z s r p f e = absurd (omega arith)
    segment (suc n) a b end zero stack keys d lt' z s r p f e = absurd (omega arith)
    segment (suc n) a b end (suc fuel) stack keys d lt' z s r p f e =
        elim (Bool-cases (same_leader (at leader a) (at leader b))) [
          | inl same ↦
              let eq_ab : leader a ≡ leader b = ground (arith, o.cmp_eq (leader a) (leader b)) in
              record {
                fuel' = fuel;
                keys' = push_key_log_id keys (at leader b);
                spent = omega arith;
                runs =
                    push-IsRunsOf leader start end keys b m r (omega arith) (omega arith)
                      (λ j g h. ground (arith, f j, squeeze a j b));
                steps = rounds_same fuel (at leader a) (at leader b) stack keys same;
              }
          | inr differ ↦ elim (Bool-cases (suc a == b)) [
            | inl next ↦ record {
              fuel' = fuel;
              keys' = push_key_log_id (push_key_log_id keys (at leader a)) (at leader b);
              spent = omega arith;
              runs =
                  push-IsRunsOf leader start (suc a) (push_key_log_id keys (at leader a)) b m
                    (push-IsRunsOf leader start end keys a m r p s (λ j g h. f j g h)) (omega arith)
                    (omega arith) (λ j g h. ground arith);
              steps = rounds_adjacent fuel (at leader a) (at leader b) stack keys differ next;
            }
            | inr far ↦
                Segment-far n a b end fuel stack keys (unfold Segment in segment n) d (ground arith)
                  z s r p f e differ
          ]
        ]

    none_yet : IsRunsOf leader start start []
    none_yet = record {
      rising = tt;
      climbing = tt;
      ends = refl;
      finds = λ i g h. absurd (omega arith);
    }

    single : start ≡ stop → IsRunsOf leader start (suc stop) (at leader stop ∷ [])
    single e = record {
      rising = (omega arith, tt);
      climbing = tt;
      ends = refl;
      finds = λ i g h. ground (arith, ap leader {x = i} {y = stop});
    }

    -- The bisection of a log between `start` and `stop`, whose leaders never decrease and whose
    -- log ids the store can all read: given `2 * (stop - start) + 2` rounds or more, it returns,
    -- and what it returns are the runs of the log.
    pub get_key_log_ids-IsRunsOf :
        (fuel : ℕ)
        → start ≤ stop
        → 2 * (stop - start) + 2 ≤ fuel
        → (keys : List (LogId CLID)) × (get_key_log_ids fuel sto (at leader start) (at leader stop)
            ≡ done keys)
          × IsRunsOf leader start (suc stop) keys
    unfolding get_key_log_ids Segment
    get_key_log_ids-IsRunsOf zero h e = absurd (omega arith)
    get_key_log_ids-IsRunsOf (suc fuel) h e = elim (Bool-cases (ltb start stop)) [
      | inl some' ↦
          let t =
            segment (stop - start) start stop start (suc fuel) [] [] (omega arith) (ground arith)
              (omega arith) (omega arith) none_yet (omega arith) (λ j u v. ap leader (omega arith))
              (omega arith) in
          (t.keys', t.steps ∙ rounds_end t.fuel' t.keys' (omega (arith, t.spent)), t.runs)
      | inr one ↦
          let same : leader start ≡ leader stop = ap leader (ground arith) in
          (
            at leader stop ∷ [],
            rounds_same fuel (at leader start) (at leader stop) [] []
                  (ground (arith, o.cmp_self (leader stop)))
                ∙ (unfold push_key_log_id in rounds_end fuel (at leader stop ∷ []) (omega arith)),
            single (ground arith),
          )
    ]
