-- ===== src/Text/Affixes.antt =====
-- What the tests for prefixes and suffixes mean.
use microlib.Prelude.{
  ℕ, zero, suc, ◌-◌, ◌≡◌, refl, ap, ap₂, true, [], ◌∷◌, ◌++◌, length, take, drop, nat_beq_iff,
  text_beq_iff, arith, length-append,
}
use microlib.Text.{Text, has_prefix, has_suffix, trim_prefix, trim_suffix}

pub has_prefix-append : (p rest : Text) → has_prefix (p ++ rest) p ≡ true
unfolding has_prefix
has_prefix-append [] rest = refl
has_prefix-append (x ∷ p) rest = ground (arith, has_prefix-append p rest)

pub rest_of_prefix : (s p : Text) → has_prefix s p ≡ true → (rest : Text) × (s ≡ p ++ rest)
unfolding has_prefix
rest_of_prefix s [] h = (s, refl)
rest_of_prefix [] (y ∷ p) h = cc
rest_of_prefix (x ∷ s) (y ∷ p) h =
    let (rest, e) = rest_of_prefix s p (ground arith) in
    (rest, ap₂ ◌∷◌ ((nat_beq_iff x y).0 (ground arith)) e)

pub drop-length : (p s : Text) → drop (length p) (p ++ s) ≡ s
drop-length [] s = refl
drop-length (x ∷ p) s = drop-length p s

take-length_append : (p s : Text) → take (length p) (p ++ s) ≡ p
take-length_append [] s = refl
take-length_append (x ∷ p) s = ap (λ l. x ∷ l) (take-length_append p s)

take-append-drop : (n : ℕ) (s : Text) → take n s ++ drop n s ≡ s
take-append-drop zero s = refl
take-append-drop (suc n) [] = refl
take-append-drop (suc n) (x ∷ s) = ap (λ l. x ∷ l) (take-append-drop n s)

front_length : (p s : Text) → length (p ++ s) - length s ≡ length p
front_length p s = omega (arith, length-append p s)

pub has_suffix-append : (p s : Text) → has_suffix (p ++ s) s ≡ true
unfolding has_suffix
has_suffix-append p s =
    rw (front_length p s, drop-length p s) (ground (arith, length-append p s, text_beq_iff s s))

pub front_of_suffix : (s q : Text) → has_suffix s q ≡ true → (front : Text) × (s ≡ front ++ q)
unfolding has_suffix
front_of_suffix s q h = (
  take (length s - length q) s,
  ground (
    arith,
    take-append-drop (length s - length q) s,
    text_beq_iff (drop (length s - length q) s) q,
  ),
)

pub trim_suffix-append : (p s : Text) → trim_suffix (p ++ s) s ≡ p
unfolding trim_suffix
trim_suffix-append p s = rw (has_suffix-append p s, front_length p s) (take-length_append p s)

pub trim_prefix-append : (p s : Text) → trim_prefix (p ++ s) p ≡ s
unfolding trim_prefix
trim_prefix-append p s = rw (has_prefix-append p s) (drop-length p s)
