-- ===== src/Api/Headers.antt =====
-- api/headers.py and api/security.py: what a request must carry.
use Prim.Native.Char.{Char, code}
use Prim.Native.String.{count, [], ◌∷◌}
use supply_chain_integration.Base.{
  ℕ, String, Option, none, some, Bool, true, false, ◌&&◌, ◌||◌, ◌==◌, leb, ltb, str_eq,
  if◌then◌else◌,
}
use supply_chain_integration.Domain.Errors.{Result, ok, err, other_error}
use supply_chain_integration.Api.Errors.{status_of}

unfoldable pub all_chars : (Char → Bool) → String → Bool
all_chars p [] = true
all_chars p (c ∷ s) = p c && all_chars p s

abbrev between : ℕ → ℕ → Char → Bool
between low high c = leb low (code c) && leb (code c) high

-- `[A-Za-z0-9]`
abbrev is_alphanumeric : Char → Bool
is_alphanumeric c = between 65 90 c || between 97 122 c || between 48 57 c

-- `[A-Za-z0-9._:-]`
abbrev is_key_char : Char → Bool
is_key_char c = is_alphanumeric c || code c == 46 || code c == 95 || code c == 58 || code c == 45

abbrev matches_pattern : String → Bool
matches_pattern [] = false
matches_pattern (c ∷ s) = is_alphanumeric c && all_chars is_key_char s

-- `IdempotencyKey`
unfoldable pub is_idempotency_key : String → Bool
unfolding all_chars
is_idempotency_key key = leb 8 (count key) && leb (count key) 128 && matches_pattern key

abbrev is_ascii : Char → Bool
is_ascii c = ltb (code c) 128

-- `hmac.compare_digest` on texts raises a `TypeError` where one of them is not ASCII.
abbrev compare_digest : String → String → Result Bool
compare_digest a b =
    if all_chars is_ascii a && all_chars is_ascii b then ok (str_eq a b) else err other_error

abbrev refusal : Result Bool → Option ℕ
refusal (ok true) = none
refusal (ok false) = some 401
refusal (err e) = some (status_of e)

-- The status that refuses a request, if its token does.
unfoldable pub require_partner_token : String → Option String → Option ℕ
unfolding all_chars
require_partner_token expected none = some 401
require_partner_token expected (some token) = refusal (compare_digest token expected)
