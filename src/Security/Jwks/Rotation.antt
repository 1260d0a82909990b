-- ===== src/Security/Jwks/Rotation.antt =====
-- security/jwks_client.go: the keys after a refresh.
use microlib.Prelude.{
  inl, inr, ℕ, Bool, true, false, Option, none, some, List, [], ◌∷◌, Dict, lookup, insert,
  lookup-insert, text_eq, text_beq, if◌then◌else◌, ◌≡◌, refl, ◌∙◌, Option-cases,
}
use microlib.Text.{Text}
use microlib.Security.Jwks.{
  JwtLibrary, Jwk, JwksClient, parse_key, process_keys, refresh_keys, get_key,
}

abbrev first_some : {A : Type 0} → Option A → Option A → Option A
first_some (some a) o = some a
first_some none o = o

if_same : {A : Type 0} (b : Bool) (a : A) → (if b then a else a) ≡ a
if_same true a = refl
if_same false a = refl

first_some_if :
    {A : Type 0} (o : Option A) (b : Bool) (a : A) (p : Option A)
    → first_some o (if b then some a else p)
      ≡ first_some (first_some o (if b then some a else none)) p
first_some_if (some x) b a p = refl
first_some_if none true a p = refl
first_some_if none false a p = refl

first_some-none : {A : Type 0} (o : Option A) → first_some o none ≡ o
first_some-none none = refl
first_some-none (some a) = refl

module _ {K : Type 0} (lib : JwtLibrary K) where
  -- The key of the last entry with an id that has one.
  unfoldable pub last_key : Text → List Jwk → Option K
  last_key kid [] = none
  last_key kid (key ∷ keys) =
      first_some (last_key kid keys) (if text_beq key.kid kid then parse_key lib key else none)

  lookup-process_keys :
      (kid : Text) (jwks : List Jwk) (new_keys : Dict Text K)
      → lookup kid (process_keys lib jwks new_keys)
        ≡ first_some (last_key kid jwks) (lookup kid new_keys)
  unfolding last_key process_keys
  lookup-process_keys kid [] new_keys = refl
  lookup-process_keys kid (key ∷ keys) new_keys = elim (Option-cases (parse_key lib key)) [
    | inl useless ↦
        rw
          (
            process_keys,
            useless,
            if_same {A = Option K} (text_beq key.kid kid) none,
            first_some-none (last_key kid keys),
          )
          (lookup-process_keys kid keys new_keys)
    | inr (k, parsed) ↦
        rw
          (
            process_keys,
            parsed,
            lookup-process_keys kid keys (insert key.kid k new_keys),
            lookup-insert key.kid kid k new_keys,
          )
          (first_some_if (last_key kid keys) (text_beq key.kid kid) k (lookup kid new_keys))
  ]

  -- After a refresh that succeeds, an id has the key of the last entry with this id that yields one; the
  -- keys of before count no more.
  pub get_key-refresh_keys :
      (kid : Text) (jwks : List Jwk) (now : ℕ) (c : JwksClient K)
      → get_key kid (refresh_keys lib (some jwks) now c).1 ≡ last_key kid jwks
  unfolding get_key refresh_keys lookup
  get_key-refresh_keys kid jwks now c = lookup-process_keys kid jwks [] ∙ first_some-none _
