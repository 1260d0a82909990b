-- ===== src/Jobs/Leader.antt =====
-- jobs/leader_election.go: MemoryLeaderElector. Its times are the readings of the clock at each call.
pub mod Lease
use microlib.Text.{Text}
use microlib.Prelude.{
  ℕ, ◌+◌, Bool, true, false, not, Option, none, some, List, [], ◌∷◌, ltb, nat_beq, ◌==◌, text_eq,
  is_empty, ◌||◌, if◌then◌else◌,
}

pub record LeaderElectionConfig : Type 0 where
  pub lease_duration : ℕ
  pub renew_deadline : ℕ
  pub retry_period : ℕ
  pub lease_name : Text
  pub identity : Text

-- No leader is the empty text, and the time of a lease that was never given is 0.
pub record MemoryLeaderElector : Type 0 where
  pub leader : Text
  pub lease_expiry : ℕ
  pub config : LeaderElectionConfig

abbrev or_default : ℕ → ℕ → ℕ
or_default n default = if nat_beq n 0 then default else n

unfoldable pub new_memory_leader_elector : LeaderElectionConfig → MemoryLeaderElector
new_memory_leader_elector config = record {
  leader = [];
  lease_expiry = 0;
  config = record config {
    lease_duration = or_default config.lease_duration 15_000_000_000;
    renew_deadline = or_default config.renew_deadline 10_000_000_000;
    retry_period = or_default config.retry_period 2_000_000_000;
  };
}

unfoldable pub is_leader : ℕ → MemoryLeaderElector → Bool × MemoryLeaderElector
is_leader now m =
    if ltb m.lease_expiry now
    then (false, record m { leader = [] })
    else (m.leader == m.config.identity, m)

unfoldable pub try_acquire_leadership : ℕ → MemoryLeaderElector → Bool × MemoryLeaderElector
try_acquire_leadership now m =
    if is_empty m.leader || ltb m.lease_expiry now
    then (
      true,
      record m { leader = m.config.identity; lease_expiry = now + m.config.lease_duration },
    )
    else (m.leader == m.config.identity, m)

-- The loop of RunForLeader over the ticks before its context is done. The result is the time at which
-- it starts the renewals, or `none` if the context is done first.
unfoldable pub run_for_leader : List ℕ → MemoryLeaderElector → Option ℕ × MemoryLeaderElector
unfolding try_acquire_leadership
run_for_leader [] m = (none, m)
run_for_leader (now ∷ ticks) m =
    let (acquired, m') = try_acquire_leadership now m in
    let rest = run_for_leader ticks m' in if acquired then (some now, m') else rest

-- Whether there is no error.
unfoldable pub resign_leadership : MemoryLeaderElector → Bool × MemoryLeaderElector
resign_leadership m =
    if m.leader == m.config.identity then (true, record m { leader = [] }) else (false, m)

-- A tick of the renewals, and whether they go on.
unfoldable pub renew : ℕ → MemoryLeaderElector → Bool × MemoryLeaderElector
renew now m =
    if m.leader == m.config.identity
    then (true, record m { lease_expiry = now + m.config.lease_duration })
    else (false, m)

-- The calls of an elector, whose goroutines share it, and ticks of the renewals.
pub data Act : Type 0 where
  check acquire renewal : ℕ → Act
  resign : Act

unfoldable pub elector_act : Act → MemoryLeaderElector → MemoryLeaderElector
unfolding is_leader try_acquire_leadership renew resign_leadership
elector_act (check now) m = (is_leader now m).1
elector_act (acquire now) m = (try_acquire_leadership now m).1
elector_act (renewal now) m = (renew now m).1
elector_act resign m = (resign_leadership m).1

unfoldable pub act_all : List Act → MemoryLeaderElector → MemoryLeaderElector
unfolding elector_act
act_all [] m = m
act_all (a ∷ acts) m = act_all acts (elector_act a m)
