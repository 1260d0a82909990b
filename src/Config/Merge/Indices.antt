-- ===== src/Config/Merge/Indices.antt =====
-- config/manager.go: the order in which mergeConfig takes the elements of an array.
use Prim.Native.Nat.{◌/◌, ◌%◌}
use microlib.Prelude.{
  ℕ, suc, ◌+◌, ◌-◌, ◌<◌, ◌≤◌, ap, ◌*◌, [], ◌∷◌, ◌++◌, ltb, ◌≡◌, refl, ap₂, ◌∙◌, arith,
}
use microlib.Text.{Text}
use microlib.Text.Numbers.{show, show_digits}
use microlib.Config.Merge.{text_before}

before_behind : (key s t : Text) → text_before (key ++ s) (key ++ t) ≡ text_before s t
unfolding text_before
before_behind [] s t = refl
before_behind (c ∷ key) s t = ground (arith, before_behind key s t)

abbrev pub element_key : Text → ℕ → Text
element_key key i = key ++ b'.' ∷ show i

show_one : (i : ℕ) → i < 10 → show i ≡ (48 + i) ∷ []
unfolding show show_digits
show_one i h = ground (arith, h)

show_digits_one : (f n : ℕ) (s : Text) → n < 10 → show_digits (suc f) n s ≡ (48 + n) ∷ s
unfolding show_digits
show_digits_one f n s h = ground (arith, h)

show_digits_two :
    (f i j : ℕ)
    → 1 ≤ i
    → i < 10
    → j < 10
    → show_digits (suc (suc f)) (10 * i + j) [] ≡ (48 + i) ∷ (48 + j) ∷ []
unfolding show_digits
show_digits_two f i j one h k =
    let tens : (10 * i + j) / 10 ≡ i = omega (arith, k) in
    let ones : (10 * i + j) % 10 ≡ j = omega (arith, k) in rw (tens, ones) (ground (arith, one, h))

show_two : (i j : ℕ) → 1 ≤ i → i < 10 → j < 10 → show (10 * i + j) ≡ (48 + i) ∷ (48 + j) ∷ []
unfolding show show_digits
show_two i j one h k =
    let fuel : 10 * i + j + 1 ≡ suc (suc (10 * i + j - 1)) = omega (arith, one) in
    ap (λ f. show_digits f (10 * i + j) []) fuel ∙ show_digits_two (10 * i + j - 1) i j one h k

-- The first ten elements of an array are taken in the order of their numbers, but each of those from
-- the tenth to the ninety-ninth before the single digits that are greater than its first digit.
pub text_before-element_key :
    (key : Text) (i j d k : ℕ)
    → i < 10
    → j < 10
    → 1 ≤ d
    → d < 10
    → k < 10
    → (text_before (element_key key i) (element_key key j) ≡ ltb i j)
      × (text_before (element_key key (10 * d + k)) (element_key key j) ≡ ltb d j)
unfolding text_before
text_before-element_key key i j d k hi hj one hd hk = (
  before_behind key (b'.' ∷ show i) (b'.' ∷ show j)
      ∙ ap₂ (λ s t. text_before (b'.' ∷ s) (b'.' ∷ t)) (show_one i hi) (show_one j hj)
      ∙ ground arith,
  before_behind key (b'.' ∷ show (10 * d + k)) (b'.' ∷ show j)
      ∙ ap₂ (λ s t. text_before (b'.' ∷ s) (b'.' ∷ t)) (show_two d k one hd hk) (show_one j hj)
      ∙ ground arith,
)
