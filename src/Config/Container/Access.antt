-- ===== src/Config/Container/Access.antt =====
-- config/config.go: what GetField yields after UpdateField.
use microlib.Prelude.{
  ◌>>=◌, ℕ, zero, suc, Bool, true, false, some, [], ◌∷◌, text_eq, nat_beq, nat_beq_iff, subst, ◌≡◌,
  refl, ap, ◌∙◌, inl, inr, Option-cases, arith, if◌then◌else◌, Bool-cases,
}
use microlib.Config.Values.{Slot, scalar, slice, struct, Struct, no_field, field, Place}
use microlib.Config.Fields.{slot_at, put_at, read, write}

-- Neither place is within the other.
abbrev pub are_apart : Place → Place → Bool
are_apart [] q = false
are_apart (i ∷ p) [] = false
are_apart (i ∷ p) (j ∷ q) = if nat_beq i j then are_apart p q else true

module _ {N : Type 0} where
  slot_at-put_at :
      (s : Struct N) (i : ℕ) (old new : Slot N)
      → slot_at s i ≡ some old
      → slot_at (put_at s i new) i ≡ some new
  slot_at-put_at no_field i old new h = cc
  slot_at-put_at (field n json yaml slot rest) zero old new h = refl
  slot_at-put_at (field n json yaml slot rest) (suc i) old new h = slot_at-put_at rest i old new h

  slot_at-put_at_other :
      (s : Struct N) (i j : ℕ) (new : Slot N)
      → nat_beq i j ≡ false
      → slot_at (put_at s i new) j ≡ slot_at s j
  slot_at-put_at_other no_field i j new h = refl
  slot_at-put_at_other (field n json yaml slot rest) zero zero new h = absurd (ground (arith, h))
  slot_at-put_at_other (field n json yaml slot rest) zero (suc j) new h = refl
  slot_at-put_at_other (field n json yaml slot rest) (suc i) zero new h = refl
  slot_at-put_at_other (field n json yaml slot rest) (suc i) (suc j) new h =
      slot_at-put_at_other rest i j new (ground (arith, h))

  -- Below the field of number `i`, whose slot is `inner`.
  read_below :
      (fields : Struct N) (i : ℕ) (inner new : Slot N) (p q : Place)
      → slot_at fields i ≡ some inner
      → read (write (struct fields) (i ∷ p) new) (i ∷ q) ≡ read (write inner p new) q
  unfolding read write
  read_below fields i inner new p q at =
      rw (write, at)
        (ap (λ o. o >>= λ slot. read slot q) (slot_at-put_at fields i inner (write inner p new) at))

  pub read-write_self :
      (slot old new : Slot N) (place : Place)
      → read slot place ≡ some old
      → read (write slot place new) place ≡ some new
  unfolding read write
  read-write_self slot old new [] h = refl
  read-write_self (struct fields) old new (i ∷ place) h = elim (Option-cases (slot_at fields i)) [
    | inl out ↦ cc (rw out at h)
    | inr (inner, at) ↦
        read_below fields i inner new place place at
        ∙ read-write_self inner old new place (rw at at h)
  ]
  read-write_self (scalar s) old new (i ∷ place) h = cc
  read-write_self (slice k vs) old new (i ∷ place) h = cc

  pub read-write_apart :
      (slot old new : Slot N) (p q : Place)
      → read slot p ≡ some old
      → are_apart p q ≡ true
      → read (write slot p new) q ≡ read slot q
  unfolding read write
  read-write_apart slot old new [] q h apart = cc
  read-write_apart slot old new (i ∷ p) [] h apart = cc
  read-write_apart (scalar s) old new (i ∷ p) (j ∷ q) h apart = cc
  read-write_apart (slice k vs) old new (i ∷ p) (j ∷ q) h apart = cc
  read-write_apart (struct fields) old new (i ∷ p) (j ∷ q) h apart =
      elim (Option-cases (slot_at fields i)) [
        | inl out ↦ cc (rw out at h)
        | inr (inner, at) ↦ elim (Bool-cases (nat_beq i j)) [
          | inl same ↦
              let below =
                read_below fields i inner new p q at
                ∙ read-write_apart inner old new p q (rw at at h) (rw same at apart) in
              subst
                (λ k.
                  read (write (struct fields) (i ∷ p) new) (k ∷ q) ≡ read (struct fields) (k ∷ q))
                ((nat_beq_iff i j).0 same) (rw at below)
          | inr other ↦
              rw (write, at)
                (ap (λ o. o >>= λ slot. read slot q)
                  (slot_at-put_at_other fields i j (write inner p new) other))
        ]
      ]
