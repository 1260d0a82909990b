-- ===== src/Security/Jwks.antt =====
-- security/jwks_client.go, security/auth.go: JWKSClient and its keys. The JWT library, base64, the
-- requests of HTTP and JSON are parameters; `K` is what the keys are.
pub mod Rotation
use Prim.Native.Nat.{◌/◌, ◌%◌}
use microlib.Prelude.{
  ℕ, ◌+◌, ◌-◌, ◌*◌, ℤ, pos, Bool, true, false, not, Option, none, some, List, [], ◌∷◌, ◌++◌, Dict,
  lookup, insert, text_eq, text_beq, length, nat_beq, ltb, is_empty, ◌&&◌, ◌||◌, if◌then◌else◌,
  ◌>>=◌,
}
use microlib.Text.{Text, text}
use microlib.Text.Parts.{replace}
use microlib.Text.Numbers.{minus}
use microlib.Security.Values.{Fields}

pub record Jwk : Type 0 where
  pub kid : Text
  pub kty : Text
  pub use_of : Text
  pub n : Text
  pub e : Text
  pub x5c : List Text

-- A token that is well formed: whether its method is one of RSA, the id of its key if it is a string,
-- and its claims.
pub record Token : Type 0 where
  pub is_rsa : Bool
  pub key_id : Option Text
  pub claims : Fields

-- `verify` is whether the signature and the times of a token are right; `to_int64` converts a
-- float64 by its bit pattern.
pub record JwtLibrary (K : Type 0) : Type 0 where
  pub decode : Text → Option Token
  pub verify : K → Text → Bool
  pub parse_certificate : Text → Option K
  pub decode_base64 : Text → Option (List ℕ)
  pub public_key : List ℕ → ℤ → K
  pub to_int64 : ℕ → ℤ

pub record JwksClient (K : Type 0) : Type 0 where
  pub keys : Dict Text K
  pub last_refresh : ℕ

abbrev padding : Text → Text
padding seg =
    if nat_beq (length seg % 4) 2
    then text "=="
    else if nat_beq (length seg % 4) 3
    then text "="
    else []

unfoldable pub decode_base64_url_segment : (Text → Option (List ℕ)) → Text → Option (List ℕ)
unfolding replace
decode_base64_url_segment decode seg =
    decode (replace b'_' b'/' (replace b'-' b'+' (seg ++ padding seg)))

-- The exponent, which wraps as an int of 64 bits.
unfoldable pub exponent_from : ℕ → List ℕ → ℕ
exponent_from exponent [] = exponent
exponent_from exponent (b ∷ e) = exponent_from ((exponent * 256 + b) % 18_446_744_073_709_551_616) e

abbrev as_int : ℕ → ℤ
as_int n = if ltb n 9_223_372_036_854_775_808 then pos n else minus (18_446_744_073_709_551_616 - n)

module _ {K : Type 0} (lib : JwtLibrary K) where
  unfoldable pub parse_rsa_public_key : Text → Text → Option K
  unfolding decode_base64_url_segment exponent_from
  parse_rsa_public_key n_str e_str = do
    n ← decode_base64_url_segment lib.decode_base64 n_str
    e ← decode_base64_url_segment lib.decode_base64 e_str
    some (lib.public_key n (as_int (exponent_from 0 e)))

  abbrev certificate : Text → Text
  certificate data64 =
      text "-----BEGIN CERTIFICATE-----\n" ++ (data64 ++ text "\n-----END CERTIFICATE-----")

  -- The key of an entry, or `none` where it is passed over.
  unfoldable pub parse_key : Jwk → Option K
  unfolding parse_rsa_public_key
  parse_key key =
      if not (text_beq key.use_of (text "sig")) || not (text_beq key.kty (text "RSA"))
      then none
      else elim key.x5c [
        | cert ∷ certs ↦ lib.parse_certificate (certificate cert)
        | [] ↦
            if not (is_empty key.n) && not (is_empty key.e)
            then parse_rsa_public_key key.n key.e
            else none
      ]

  unfoldable pub process_keys : List Jwk → Dict Text K → Dict Text K
  unfolding insert
  process_keys [] new_keys = new_keys
  process_keys (key ∷ keys) new_keys = elim (parse_key key) [
    | none ↦ process_keys keys new_keys
    | some k ↦ process_keys keys (insert key.kid k new_keys)
  ]

  -- With the keys that the endpoint answers at time `now`, or `none` for an error.
  unfoldable pub refresh_keys : Option (List Jwk) → ℕ → JwksClient K → Bool × JwksClient K
  unfolding process_keys
  refresh_keys none now c = (false, c)
  refresh_keys (some jwks) now c =
      (true, record { keys = process_keys jwks []; last_refresh = now })

  unfoldable pub new_jwks_client : Text → Option (List Jwk) → ℕ → Option (JwksClient K)
  unfolding refresh_keys
  new_jwks_client endpoint answer now =
      let (ok, c) = refresh_keys answer now (record { keys = []; last_refresh = 0 }) in
      if is_empty endpoint then none else if ok then some c else none

  -- A tick of startKeyRefresher.
  unfoldable pub refresher_tick : Option (List Jwk) → ℕ → JwksClient K → JwksClient K
  unfolding refresh_keys
  refresher_tick answer now c = (refresh_keys answer now c).1

unfoldable pub get_key : {K : Type 0} → Text → JwksClient K → Option K
unfolding lookup
get_key kid c = lookup kid c.keys

unfoldable pub key_count : {K : Type 0} → JwksClient K → ℕ
key_count c = length c.keys
