-- ===== src/Jobs/MemoryQueue/Invariant.antt =====
-- jobs/job_queue.go: what holds of MemoryJobQueue and its workers between any two steps.
pub mod Calls
pub mod Workers
pub mod Runs
use microlib.Prelude.{
  ℕ, zero, suc, ◌+◌, ◌-◌, ◌≤◌, ◌<◌, ◌≡◌, ◌≢◌, ◌⊎◌, refl, Bool, true, false, Option, none, some,
  List, [], ◌∷◌, ◌++◌, String, total, nat_beq, ◌==◌, string_eq, if◌then◌else◌, arith, total-append,
  Bool-cases, inl, inr, lookup,
}
use microlib.Jobs.RetryPolicy.{Float64}
use microlib.Jobs.Job.{pending, running, cancelled, dead_lettered}
use microlib.Jobs.MemoryQueue.{MemoryJobQueue}
use microlib.Jobs.MemoryQueue.Store.{is_at, count}
use microlib.Jobs.MemoryQueue.System.{System, Phase, idle, fetched, busy, stopped}

abbrev pub fetched_at : ℕ → Phase → ℕ
fetched_at p (fetched q) = is_at p q
fetched_at p _ = 0

abbrev pub busy_at : ℕ → Phase → ℕ
busy_at p (busy q) = is_at p q
busy_at p _ = 0

-- How many workers hold `p`, before and after they mark it running.
abbrev pub fetchers : ℕ → List Phase → ℕ
fetchers p = total (fetched_at p)

abbrev pub runners : ℕ → List Phase → ℕ
runners p = total (busy_at p)

-- For one pointer: its entry is in one place only, and its status says in which.
pub record IsPlaced {F : Float64} (s : System F) (p : ℕ) : Type 0 where
  pub once : count p s.queue.queue + fetchers p s.pool + runners p s.pool ≤ 1
  pub owned :
      0 < count p s.queue.queue + fetchers p s.pool + runners p s.pool
      → lookup (s.queue.store p).job.id s.queue.jobs ≡ some p
  pub queued : 0 < count p s.queue.queue → (s.queue.store p).status ≡ pending
  pub taken :
      0 < fetchers p s.pool
      → ((s.queue.store p).status ≡ pending) ⊎ ((s.queue.store p).status ≡ cancelled)
  pub running : 0 < runners p s.pool → (s.queue.store p).status ≡ running

-- For one id: what the maps say of the entry that they lead to.
pub record IsNamed {F : Float64} (s : System F) (id : String) (p : ℕ) : Type 0 where
  pub named :
      lookup id s.queue.jobs ≡ some p → ((s.queue.store p).job.id ≡ id) × (p < s.queue.next_entry)
  pub dead :
      lookup id s.queue.dead_lettered ≡ some p
      → (lookup id s.queue.jobs ≡ some p) × ((s.queue.store p).status ≡ dead_lettered)
  pub pending_kept :
      lookup id s.queue.jobs ≡ some p
      → (s.queue.store p).status ≡ pending
      → count p s.queue.queue + fetchers p s.pool ≡ 1
  pub running_kept :
      lookup id s.queue.jobs ≡ some p → (s.queue.store p).status ≡ running → runners p s.pool ≡ 1

pub record IsConsistent {F : Float64} (s : System F) : Type 0 where
  pub placed : (p : ℕ) → IsPlaced s p
  pub named : (id : String) (p : ℕ) → IsNamed s id p

module _ {F : Float64} {s : System F} (c : IsConsistent s) where
  -- Nothing refers to the next unused pointer.
  pub unused :
      count s.queue.next_entry s.queue.queue
        + fetchers s.queue.next_entry s.pool
        + runners s.queue.next_entry s.pool
      ≡ 0
  unused = ground (
    arith,
    c.placed s.queue.next_entry,
    c.named (s.queue.store s.queue.next_entry).job.id s.queue.next_entry,
  )

  pub unnamed : (id : String) → lookup id s.queue.jobs ≢ some s.queue.next_entry
  unnamed id = ground (arith, c.named id s.queue.next_entry)
