-- ===== src/Examples/Registries.antt =====
-- Two registries and what a resolution gives at them (app/registry/digest.py).
use echo_security_scanner.Base.{ℕ, ◌≡◌, refl, inr, false, none, some, [], codes, is_empty}
use echo_security_scanner.Errors.{ok, raise, image_not_found}
use echo_security_scanner.Registry.Reference.{ImageReference, docker_hub_host}
use echo_security_scanner.Registry.Digest.{Network, resolve_digest}
use echo_security_scanner.Registry.Digest.Answers.{
  IsAnswered, resolve_digest_found, resolve_digest_missing,
}
use echo_security_scanner.Scanner.Json.{null}

abbrev nginx_reference : ImageReference
nginx_reference = record {
  host = docker_hub_host;
  repository = codes "library/nginx";
  tag = codes "latest";
}

-- A registry that gives every request this status, and every header this digest.
abbrev registry_of : ℕ → Network
registry_of status = record {
  exchange =
      λ _. inr (record { status = status; header = λ _. some (codes "sha256:a"); body = inr null });
  findall = λ _. [];
  int_of = λ _. none;
  seconds_until = λ _. none;
}

found_there : resolve_digest (registry_of 200) nginx_reference ≡ ok (codes "sha256:a")
unfolding resolve_digest
found_there = refl

missing_there :
    resolve_digest (registry_of 404) nginx_reference
    ≡ raise (image_not_found (codes "library/nginx:latest not found"))
unfolding resolve_digest
missing_there = refl

resolve_digest_found_example :
    (is_empty (codes "sha256:a") ≡ false) × IsAnswered (registry_of 200) 200
resolve_digest_found_example =
    resolve_digest_found (registry_of 200) nginx_reference (codes "sha256:a") found_there

resolve_digest_missing_example : IsAnswered (registry_of 404) 404
resolve_digest_missing_example =
    resolve_digest_missing (registry_of 404) nginx_reference
      (codes "library/nginx:latest not found") missing_there
