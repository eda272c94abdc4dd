-- ===== src/Registry/Digest.antt =====
-- app/registry/digest.py from `parse_retry_after` on. The HTTP exchange, the matches of the challenge's
-- regular expression, `int()` and the reading of an HTTP date are parameters.
pub mod Answers
use echo_security_scanner.Base.{
  ℕ, ◌⊎◌, inl, inr, Bool, true, false, not, Option, none, some, List, [], ◌∷◌, ◌++◌, Text, codes,
  text_eq, is_empty, strip, ◌==◌, if◌then◌else◌, show_nat, or_else,
}
use echo_security_scanner.Base.Float.{ℤ, pos, negsuc}
use echo_security_scanner.Errors.{
  Result, ok, raise, image_not_found, rate_limited, registry_error, other, and_then,
}
use echo_security_scanner.Registry.Reference.{ImageReference}
use echo_security_scanner.Scanner.Json.{Json, object, null, get, truthy}

-- A response: its status, its headers by name, and what `response.json()` returns, or
-- the name and the message of what it raises.
pub record Response : Type 0 where
  pub status : ℕ
  pub header : Text → Option Text
  pub body : (Text × Text) ⊎ Json

-- The requests of one resolution, no two of which are the same. The manifest's carry the token, if
-- there is one; the token's carry the parameters that are sent.
pub data Request : Type 0 where
  head_manifest : Option Json → Request
  get_manifest : Option Json → Request
  get_token : Text → Option Text → Option Text → Request

-- `max(0, n)`
abbrev pub clamp : ℤ → ℕ
clamp (pos n) = n
clamp (negsuc _) = 0

abbrev pub option_clamp : Option ℤ → Option ℕ
option_clamp none = none
option_clamp (some z) = some (clamp z)

-- `dict(pairs).get(key)`: the last pair with the key.
unfoldable pub last_of : Text → List (Text × Text) → Option Text
last_of key [] = none
last_of key ((k, v) ∷ rest) = elim (last_of key rest) [
  | none ↦ if text_eq k key then some v else none
  | some found ↦ some found
]

-- A value that is there and not empty.
abbrev pub non_empty : Option Text → Option Text
non_empty none = none
non_empty (some []) = none
non_empty (some (c ∷ cs)) = some (c ∷ cs)

-- `exchange` is the client's answer, or the text of its `httpx.HTTPError`; `findall` the matches of
-- `_CHALLENGE`; `int_of` is none where `int()` raises; `seconds_until` gives the whole seconds from now
-- to an HTTP date, none where it cannot be read.
pub record Network : Type 0 where
  pub exchange : Request → Text ⊎ Response
  pub findall : Text → List (Text × Text)
  pub int_of : Text → Option ℤ
  pub seconds_until : Text → Option ℤ

-- A request, with the failure that `resolve_digest` makes of an `httpx.HTTPError`.
abbrev pub received : Text ⊎ Response → Result Response
received (inl message) = raise (registry_error (codes "registry request failed: " ++ message))
received (inr response) = ok response

abbrev pub decoded : (Text × Text) ⊎ Json → Result Json
decoded (inl (name, message)) = raise (other name message)
decoded (inr value) = ok value

module _ (net : Network) where
  -- A value without its surrounding space.
  retry_seconds : Text → Option ℕ
  retry_seconds value = elim (net.int_of value) [
    | some n ↦ some (clamp n)
    | none ↦ option_clamp (net.seconds_until value)
  ]

  unfoldable pub parse_retry_after : Option Text → Option ℕ
  unfolding retry_seconds
  parse_retry_after none = none
  parse_retry_after (some raw) = if is_empty raw then none else retry_seconds (strip raw)

  -- `payload.get("token") or payload.get("access_token")`
  token_of : Json → Result Json
  token_of (object payload) = ok (
      if truthy (get (codes "token") payload)
      then get (codes "token") payload
      else get (codes "access_token") payload)
  token_of _ = raise (other (codes "AttributeError") (codes "object has no attribute 'get'"))

  -- The answer of the token's endpoint.
  token_answer : Text → Response → Result Json
  unfolding token_of parse_retry_after
  token_answer realm response =
      if response.status == 429
      then raise (
          rate_limited (codes "auth endpoint " ++ realm ++ codes " is throttling us")
            (parse_retry_after (response.header (codes "Retry-After"))))
      else if response.status == 200
      then and_then (decoded response.body) token_of
      else raise (
          registry_error
            (codes "auth failed at " ++ realm ++ codes ": HTTP " ++ show_nat response.status))

  -- A missing realm gives no token.
  fetch_token : List (Text × Text) → Result Json
  unfolding token_answer last_of
  fetch_token challenge = elim (non_empty (last_of (codes "realm") challenge)) [
    | none ↦ ok null
    | some realm ↦
        and_then
          (received (
            net.exchange (
              get_token realm (non_empty (last_of (codes "service") challenge))
                (non_empty (last_of (codes "scope") challenge)))))
          (token_answer realm)
  ]

  -- The digest's header of a response, or of the GET that is tried where it is missing.
  digest_or_get : Option Json → Response → Result Text
  digest_or_get token response =
      elim (non_empty (response.header (codes "Docker-Content-Digest"))) [
        | some digest ↦ ok digest
        | none ↦ and_then (received (net.exchange (get_manifest token))) (λ again.
            elim (non_empty (again.header (codes "Docker-Content-Digest"))) [
              | some digest ↦ ok digest
              | none ↦
                  raise (registry_error (codes "registry did not return Docker-Content-Digest"))
            ])
      ]

  -- What the last HEAD response means.
  manifest_answer : ImageReference → Option Json → Response → Result Text
  unfolding digest_or_get parse_retry_after
  manifest_answer reference token response =
      if response.status == 429
      then raise (
          rate_limited (reference.host ++ codes " is throttling us")
            (parse_retry_after (response.header (codes "Retry-After"))))
      else if response.status == 404
      then raise (
          image_not_found
            (reference.repository ++ codes ":" ++ reference.tag ++ codes " not found"))
      else if response.status == 200
      then digest_or_get token response
      else raise (
          registry_error (
            codes "manifest HEAD returned HTTP "
            ++ show_nat response.status
            ++ codes " for "
            ++ reference.repository
            ++ codes ":"
            ++ reference.tag))

  -- After a 401: with a token the HEAD is sent again, without one the 401 stands.
  with_token : ImageReference → Response → Json → Result Text
  unfolding manifest_answer
  with_token reference response token =
      if truthy token
      then and_then (received (net.exchange (head_manifest (some token))))
          (manifest_answer reference (some token))
      else manifest_answer reference none response

  -- The first HEAD response.
  first_answer : ImageReference → Response → Result Text
  unfolding with_token fetch_token
  first_answer reference response =
      if response.status == 401
      then and_then
          (fetch_token (net.findall (or_else (response.header (codes "WWW-Authenticate")) [])))
          (with_token reference response)
      else manifest_answer reference none response

  unfoldable pub resolve_digest : ImageReference → Result Text
  unfolding first_answer
  resolve_digest reference =
      and_then (received (net.exchange (head_manifest none))) (first_answer reference)
