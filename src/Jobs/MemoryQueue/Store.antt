-- ===== src/Jobs/MemoryQueue/Store.antt =====
-- jobs/job_queue.go: pointers in the queue of MemoryJobQueue, counted.
use microlib.Prelude.{
  ℕ, ◌+◌, ◌-◌, ◌<◌, ◌≡◌, ◌≢◌, ap, ◌∙◌, false, List, [], ◌∷◌, ◌++◌, String, total, nat_beq, ◌==◌,
  string_eq, if◌then◌else◌, arith, total-append, Bool-cases, inl, inr,
}
use microlib.Jobs.RetryPolicy.{Float64}
use microlib.Jobs.MemoryQueue.{QueueJobEntry, remove_first}

-- 1 at the pointer `p`, and 0 elsewhere.
abbrev pub is_at : ℕ → ℕ → ℕ
is_at p q = if nat_beq q p then 1 else 0

-- How often the pointer `p` stands in a list.
abbrev pub count : ℕ → List ℕ → ℕ
count p = total (is_at p)

pub count-push : (p q : ℕ) (l : List ℕ) → count p (l ++ q ∷ []) ≡ count p l + is_at p q
count-push p q l = omega (arith, total-append (is_at p) l (q ∷ []))

module _ {F : Float64} (store : ℕ → QueueJobEntry F) (id : String) (p : ℕ) where
  differs : (y : ℕ) → y ≡ p → ((store y).job.id == id) ≡ false → (store p).job.id ≡ id → ⊥
  differs y e other h =
      cc (other, (string_eq.equal_iff (store y).job.id id).1 (ap (λ z. (store z).job.id) e ∙ h))

  -- Where only `p` has the id, only `p` is taken out, once.
  pub count-remove_first :
      (l : List ℕ) (x : ℕ)
      → (store p).job.id ≡ id
      → ((y : ℕ) → 0 < count y l → (store y).job.id ≡ id → y ≡ p)
      → count x (remove_first store id l) ≡ (if nat_beq x p then count x l - 1 else count x l)
  unfolding remove_first
  count-remove_first [] x h only = ground arith
  count-remove_first (y ∷ l) x h only = elim (Bool-cases ((store y).job.id == id)) [
    | inl same ↦
        let e : y ≡ p = only y (ground arith) ((string_eq.equal_iff _ _).0 same) in
        rw same (ground (arith, e))
    | inr other ↦
        let e : y ≢ p = λ eq. differs y eq other h in
        rw other (ground (arith, e, count-remove_first l x h (λ z m. only z (omega arith))))
  ]
