-- ===== src/Registry/Digest/Answers.antt =====
-- What the outcomes of a resolution say of the registry (`resolve_digest` of
-- app/registry/digest.py).
use echo_security_scanner.Base.{
  ℕ, ◌≡◌, ◌≢◌, refl, ◌⊎◌, inl, inr, false, Option, none, some, List, [], Text, arith, is_empty,
  Bool-cases, ◌==◌, codes, or_else, Option-cases, subst,
}
use echo_security_scanner.Errors.{
  Result, ok, raise, image_not_found, and_then, and_then-ok, and_then-raise,
}
use echo_security_scanner.Registry.Reference.{ImageReference}
use echo_security_scanner.Scanner.Json.{Json, truthy}
use echo_security_scanner.Registry.Digest.{
  Response, head_manifest, Network, received, non_empty, token_of, token_answer, fetch_token,
  digest_or_get, manifest_answer, with_token, first_answer, resolve_digest, get_manifest, get_token,
  last_of,
}

non_empty_lem : (o : Option Text) (d : Text) → non_empty o ≡ some d → is_empty d ≡ false
non_empty_lem o d h = ground arith

received_ok : (x : Text ⊎ Response) (r : Response) → received x ≡ ok r → x ≡ inr r
received_ok x r h = ground arith

received_found : (x : Text ⊎ Response) (m : Text) → received x ≢ raise (image_not_found m)
received_found x m h = ground arith

module _ (net : Network) where
  -- A HEAD for the manifest was answered with this status.
  abbrev pub IsAnswered : ℕ → Type 0
  IsAnswered status =
      (token : Option Json) × (r : Response) × (net.exchange (head_manifest token) ≡ inr r)
      × (r.status ≡ status)

  digest_or_get_ok :
      (token : Option Json) (r : Response) (d : Text)
      → digest_or_get net token r ≡ ok d
      → is_empty d ≡ false
  unfolding digest_or_get
  digest_or_get_ok token r d h =
      ground (arith, non_empty_lem (r.header (codes "Docker-Content-Digest")))

  digest_or_get_found :
      (token : Option Json) (r : Response) (m : Text)
      → digest_or_get net token r ≢ raise (image_not_found m)
  unfolding digest_or_get
  digest_or_get_found token r m h =
      ground (arith, received_found (net.exchange (get_manifest token)))

  manifest_ok :
      (ref : ImageReference) (token : Option Json) (r : Response) (d : Text)
      → manifest_answer net ref token r ≡ ok d
      → (is_empty d ≡ false) × (r.status ≡ 200)
  unfolding manifest_answer
  manifest_ok ref token r d h = ground (arith, digest_or_get_ok token r d)

  manifest_missing :
      (ref : ImageReference) (token : Option Json) (r : Response) (m : Text)
      → manifest_answer net ref token r ≡ raise (image_not_found m)
      → r.status ≡ 404
  unfolding manifest_answer
  manifest_missing ref token r m h = ground (arith, digest_or_get_found token r m)

  token_found :
      (realm : Text) (r : Response) (m : Text)
      → token_answer net realm r ≢ raise (image_not_found m)
  unfolding token_answer token_of
  token_found realm r m h = ground arith

  asked_found :
      (realm : Text) (x : Text ⊎ Response) (m : Text)
      → and_then (received x) (token_answer net realm) ≢ raise (image_not_found m)
  asked_found realm x m h = elim (and_then-raise (received x) (token_answer net realm) h) [
    | inl k ↦ received_found x m k
    | inr (r, k, l) ↦ token_found realm r m l
  ]

  fetch_found : (c : List (Text × Text)) (m : Text) → fetch_token net c ≢ raise (image_not_found m)
  unfolding fetch_token
  fetch_found c m h = elim (Option-cases (non_empty (last_of (codes "realm") c))) [
    | inl e ↦ absurd (cc (rw (e, fetch_token) at h))
    | inr (realm, e) ↦
        asked_found realm
          (net.exchange (
            get_token realm (non_empty (last_of (codes "service") c))
              (non_empty (last_of (codes "scope") c))))
          m (rw (e, fetch_token) at h)
  ]

  with_token_ok :
      (ref : ImageReference) (r : Response) (token : Json) (d : Text)
      → IsAnswered r.status
      → with_token net ref r token ≡ ok d
      → (is_empty d ≡ false) × IsAnswered 200
  unfolding with_token
  with_token_ok ref r token d sent h = elim (Bool-cases (truthy token)) [
    | inl e ↦
        let (again, k, l) =
          and_then-ok (received (net.exchange (head_manifest (some token)))) _
            (rw (e, with_token) at h) in
        let answer = manifest_ok ref (some token) again d l in
        (answer.0, (some token, again, received_ok _ again k, answer.1))
    | inr e ↦
        let answer = manifest_ok ref none r d (rw (e, with_token) at h) in
        (answer.0, subst IsAnswered answer.1 sent)
  ]

  with_token_missing :
      (ref : ImageReference) (r : Response) (token : Json) (m : Text)
      → IsAnswered r.status
      → with_token net ref r token ≡ raise (image_not_found m)
      → IsAnswered 404
  unfolding with_token
  with_token_missing ref r token m sent h = elim (Bool-cases (truthy token)) [
    | inl e ↦
        elim (and_then-raise (received (net.exchange (head_manifest (some token))))
          (manifest_answer net ref (some token)) (rw (e, with_token) at h)) [
            | inl k ↦ absurd (received_found _ m k)
            | inr (again, k, l) ↦ (
              some token,
              again,
              received_ok _ again k,
              manifest_missing ref (some token) again m l,
            )
          ]
    | inr e ↦ subst IsAnswered (manifest_missing ref none r m (rw (e, with_token) at h)) sent
  ]

  challenge : Response → Result Json
  challenge r = fetch_token net (net.findall (or_else (r.header (codes "WWW-Authenticate")) []))

  first_ok :
      (ref : ImageReference) (r : Response) (d : Text)
      → IsAnswered r.status
      → first_answer net ref r ≡ ok d
      → (is_empty d ≡ false) × IsAnswered 200
  unfolding first_answer challenge
  first_ok ref r d sent h = elim (Bool-cases (r.status == 401)) [
    | inl e ↦
        let (token, k, l) =
          and_then-ok (challenge r) (with_token net ref r) (rw (e, first_answer) at h) in
        with_token_ok ref r token d sent l
    | inr e ↦
        let answer = manifest_ok ref none r d (rw (e, first_answer) at h) in
        (answer.0, subst IsAnswered answer.1 sent)
  ]

  first_missing :
      (ref : ImageReference) (r : Response) (m : Text)
      → IsAnswered r.status
      → first_answer net ref r ≡ raise (image_not_found m)
      → IsAnswered 404
  unfolding first_answer challenge
  first_missing ref r m sent h = elim (Bool-cases (r.status == 401)) [
    | inl e ↦
        elim (and_then-raise (challenge r) (with_token net ref r) (rw (e, first_answer) at h)) [
          | inl k ↦
              absurd
                (fetch_found (net.findall (or_else (r.header (codes "WWW-Authenticate")) [])) m k)
          | inr (token, k, l) ↦ with_token_missing ref r token m sent l
        ]
    | inr e ↦ subst IsAnswered (manifest_missing ref none r m (rw (e, first_answer) at h)) sent
  ]

  -- A digest that is resolved is not empty, and the registry answered a HEAD for the manifest, with a
  -- token or without, with 200.
  pub resolve_digest_found :
      (ref : ImageReference) (d : Text)
      → resolve_digest net ref ≡ ok d
      → (is_empty d ≡ false) × IsAnswered 200
  unfolding resolve_digest
  resolve_digest_found ref d h =
      let (r, k, l) =
        and_then-ok (received (net.exchange (head_manifest none))) (first_answer net ref) h in
      first_ok ref r d (none, r, received_ok _ r k, refl) l

  -- An image counts as missing, which fails its job for good, only where the registry answered a HEAD
  -- for the manifest with 404: no failed request, refused token or throttling does.
  pub resolve_digest_missing :
      (ref : ImageReference) (m : Text)
      → resolve_digest net ref ≡ raise (image_not_found m)
      → IsAnswered 404
  unfolding resolve_digest
  resolve_digest_missing ref m h =
      elim (and_then-raise (received (net.exchange (head_manifest none))) (first_answer net ref)
        h) [
          | inl k ↦ absurd (received_found _ m k)
          | inr (r, k, l) ↦ first_missing ref r m (none, r, received_ok _ r k, refl) l
        ]
