-- ===== src/Jobs/Leader/Lease.antt =====
-- jobs/leader_election.go: who leads, and until when.
use microlib.Prelude.{
  ℕ, ◌+◌, ◌≤◌, Bool, true, false, some, List, [], ◌∷◌, ltb, ◌==◌, ==-refl, text_eq, is_empty, ◌≡◌,
  ◌⊎◌, refl, inl, arith, All,
}
use microlib.Text.{Text}
use microlib.Jobs.Leader.{
  MemoryLeaderElector, LeaderElectionConfig, new_memory_leader_elector, is_leader,
  try_acquire_leadership, run_for_leader, resign_leadership, renew, Act, check, acquire, renewal,
  resign, elector_act, act_all,
}

-- The leader is nobody or the instance itself, since the elector is in its memory.
abbrev IsOwn : MemoryLeaderElector → Type 0
IsOwn m = (is_empty m.leader ≡ true) ⊎ (m.leader == m.config.identity ≡ true)

elector_act-IsOwn : (a : Act) (m : MemoryLeaderElector) → IsOwn m → IsOwn (elector_act a m)
unfolding elector_act is_leader try_acquire_leadership renew resign_leadership
elector_act-IsOwn (check now) m own = ground arith
elector_act-IsOwn (acquire now) m own = ground (arith, ==-refl m.config.identity)
elector_act-IsOwn (renewal now) m own = ground arith
elector_act-IsOwn resign m own = ground arith

act_all-IsOwn : (acts : List Act) (m : MemoryLeaderElector) → IsOwn m → IsOwn (act_all acts m)
unfolding act_all
act_all-IsOwn [] m own = own
act_all-IsOwn (a ∷ acts) m own = act_all-IsOwn acts (elector_act a m) (elector_act-IsOwn a m own)

new-IsOwn : (config : LeaderElectionConfig) → IsOwn (new_memory_leader_elector config)
unfolding new_memory_leader_elector
new-IsOwn config = inl refl

acquired_at_once :
    (now : ℕ) (ticks : List ℕ) (m : MemoryLeaderElector)
    → IsOwn m
    → ((run_for_leader (now ∷ ticks) m).0 ≡ some now)
      × ((is_leader now (run_for_leader (now ∷ ticks) m).1).0 ≡ true)
unfolding run_for_leader try_acquire_leadership is_leader
acquired_at_once now ticks m own = ground (arith, ==-refl m.config.identity)

-- RunForLeader on an elector of which anything was called before ends at its first tick, and then the
-- instance is the leader.
pub run_for_leader_ends :
    (config : LeaderElectionConfig) (acts : List Act) (now : ℕ) (ticks : List ℕ)
    → let m = act_all acts (new_memory_leader_elector config) in
      ((run_for_leader (now ∷ ticks) m).0 ≡ some now)
      × ((is_leader now (run_for_leader (now ∷ ticks) m).1).0 ≡ true)
run_for_leader_ends config acts now ticks =
    acquired_at_once now ticks _
      (act_all-IsOwn acts (new_memory_leader_elector config) (new-IsOwn config))

-- The clock's reading at an elector_act is not above `end`.
abbrev IsBy : ℕ → Act → Type 0
IsBy end (check now) = now ≤ end
IsBy end (acquire now) = now ≤ end
IsBy end (renewal now) = now ≤ end
IsBy end resign = Unit

-- The lease ends at most its duration behind a time.
abbrev EndsBy : ℕ → ℕ → MemoryLeaderElector → Type 0
EndsBy end duration m = (m.lease_expiry ≤ end + duration) × (m.config.lease_duration ≡ duration)

elector_act-EndsBy :
    (end duration : ℕ) (a : Act) (m : MemoryLeaderElector)
    → IsBy end a
    → EndsBy end duration m
    → EndsBy end duration (elector_act a m)
unfolding elector_act is_leader try_acquire_leadership renew resign_leadership
elector_act-EndsBy end duration (check now) m by ends = ground (arith, ends.0, ends.1)
elector_act-EndsBy end duration (acquire now) m by ends = ground (arith, by, ends.0, ends.1)
elector_act-EndsBy end duration (renewal now) m by ends = ground (arith, by, ends.0, ends.1)
elector_act-EndsBy end duration resign m by ends = ground (arith, ends.0, ends.1)

act_all-EndsBy :
    (end duration : ℕ) (acts : List Act) (m : MemoryLeaderElector)
    → All (IsBy end) acts
    → EndsBy end duration m
    → EndsBy end duration (act_all acts m)
unfolding act_all
act_all-EndsBy end duration [] m by ends = ends
act_all-EndsBy end duration (a ∷ acts) m by ends =
    act_all-EndsBy end duration acts (elector_act a m) by.1
      (elector_act-EndsBy end duration a m by.0 ends)

-- An instance that is the leader was so by an elector_act at most the duration of a lease before: if all acts
-- were at `end` or before, it leads no later than the duration behind `end`.
pub leads_within_lease :
    (config : LeaderElectionConfig) (acts : List Act) (end now : ℕ)
    → All (IsBy end) acts
    → (is_leader now (act_all acts (new_memory_leader_elector config))).0 ≡ true
    → now ≤ end + (new_memory_leader_elector config).config.lease_duration
unfolding new_memory_leader_elector is_leader
leads_within_lease config acts end now by leads =
    let ends =
      act_all-EndsBy end (new_memory_leader_elector config).config.lease_duration acts
        (new_memory_leader_elector config) by (omega arith, refl) in
    ground (arith, leads, ends.0)

-- What is no attempt to acquire the leadership.
abbrev is_passive : Act → Bool
is_passive (acquire now) = false
is_passive _ = true

abbrev IsLost : MemoryLeaderElector → Type 0
IsLost m = (is_empty m.leader ≡ true) × (is_empty m.config.identity ≡ false)

elector_act-IsLost :
    (a : Act) (m : MemoryLeaderElector) → is_passive a ≡ true → IsLost m → IsLost (elector_act a m)
unfolding elector_act is_leader renew resign_leadership
elector_act-IsLost (check now) m passive lost = ground (arith, lost.0, lost.1)
elector_act-IsLost (acquire now) m passive lost = cc
elector_act-IsLost (renewal now) m passive lost = ground (arith, lost.0, lost.1)
elector_act-IsLost resign m passive lost = ground (arith, lost.0, lost.1)

act_all-IsLost :
    (acts : List Act) (m : MemoryLeaderElector)
    → All (λ a. is_passive a ≡ true) acts
    → IsLost m
    → IsLost (act_all acts m)
unfolding act_all
act_all-IsLost [] m passive lost = lost
act_all-IsLost (a ∷ acts) m passive lost =
    act_all-IsLost acts (elector_act a m) passive.1 (elector_act-IsLost a m passive.0 lost)

nobody_leads : (s t : Text) → is_empty s ≡ true → is_empty t ≡ false → (s == t) ≡ false
nobody_leads [] [] h k = cc
nobody_leads [] (c ∷ t) h k = refl
nobody_leads (c ∷ s) t h k = cc

not_led : (now : ℕ) (m : MemoryLeaderElector) → IsLost m → (is_leader now m).0 ≡ false
unfolding is_leader
not_led now m lost = ground (arith, nobody_leads m.leader m.config.identity lost.0 lost.1)

-- If IsLeader is asked after the lease has run out, an instance with an identity is not the leader
-- again before it runs for it again: the renewals do not bring the leadership back.
pub lost_for_good :
    (m : MemoryLeaderElector) (now later : ℕ) (acts : List Act)
    → ltb m.lease_expiry now ≡ true
    → is_empty m.config.identity ≡ false
    → All (λ a. is_passive a ≡ true) acts
    → (is_leader later (act_all acts (is_leader now m).1)).0 ≡ false
unfolding is_leader
lost_for_good m now later acts expired named passive =
    let lost =
      act_all-IsLost acts (is_leader now m).1 passive
        (ground (arith, expired), ground (arith, expired, named)) in
    not_led later _ lost
