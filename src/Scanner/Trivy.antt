-- ===== src/Scanner/Trivy.antt =====
-- app/scanner/trivy.py: the arguments of Trivy, and what its exit means. The subprocess, the JSON and
-- hash functions and the file of the vulnerability database are parameters.
pub mod Exits
pub mod Flags
use echo_security_scanner.Base.{
  ℕ, suc, ◌==◌, ◌⊎◌, inl, inr, Bool, true, false, Option, none, some, List, [], ◌∷◌, ◌++◌, Text,
  codes, is_empty, strip, take, if◌then◌else◌, show_nat,
}
use echo_security_scanner.Base.Float.{ℤ, pos, negsuc}
use echo_security_scanner.Errors.{
  Result, ok, raise, trivy_error, trivy_timeout, trivy_rate_limited, other, and_then,
}
use echo_security_scanner.Config.{Settings}
use echo_security_scanner.Scanner.Json.{Json, object, string, get, truthy}
use echo_security_scanner.Scanner.Parser.{is_rate_limit_error}

-- `CompletedProcess`, captured as text.
pub record Completed : Type 0 where
  pub returncode : ℤ
  pub stdout : Text
  pub stderr : Text

-- What `subprocess.run` does: it returns, or raises `FileNotFoundError`, `TimeoutExpired`, or another
-- exception with its name and message.
pub data Invocation : Type 0 where
  file_not_found : Invocation
  timeout_expired : Invocation
  os_error : Text → Text → Invocation
  completed : Completed → Invocation

-- An absent or empty URL is falsy.
abbrev pub server_flags : Option Text → List Text
server_flags none = codes "--skip-db-update" ∷ []
server_flags (some []) = codes "--skip-db-update" ∷ []
server_flags (some (c ∷ cs)) = codes "--server" ∷ (c ∷ cs) ∷ []

abbrev pub result_flags : List Text
result_flags =
    codes "--format"
    ∷ codes "json"
    ∷ codes "--quiet"
    ∷ codes "--scanners"
    ∷ codes "vuln"
    ∷ codes "--image-src"
    ∷ codes "remote"
    ∷ []

unfoldable pub scan_flags : Settings → List Text
scan_flags settings = result_flags ++ server_flags settings.trivy_server_url

unfoldable pub build_argv : Text → Settings → List Text
unfolding scan_flags
build_argv image_ref settings =
    settings.trivy_bin
      ∷ codes "image"
      ∷ codes "--cache-dir"
      ∷ settings.trivy_cache_dir
      ∷ scan_flags settings
    ++ image_ref ∷ []

abbrev pub is_zero : ℤ → Bool
is_zero (pos n) = n == 0
is_zero (negsuc _) = false

-- `str()` of a return code.
show_int : ℤ → Text
show_int (pos n) = show_nat n
show_int (negsuc n) = codes "-" ++ show_nat (suc n)

-- `(stderr or stdout or "").strip()[:2000]`
abbrev pub failure_detail : Completed → Text
failure_detail c = take 2000 (strip (if is_empty c.stderr then c.stdout else c.stderr))

-- A process that came to its end.
unfoldable pub exited : Completed → Result Text
unfolding show_int
exited c =
    if is_zero c.returncode
    then ok c.stdout
    else (let message =
          codes "trivy exited " ++ show_int c.returncode ++ codes ": " ++ failure_detail c in
        if is_rate_limit_error (failure_detail c)
        then raise (trivy_rate_limited message)
        else raise (trivy_error message))

-- `argv[0]`
abbrev pub program : List Text → Text
program [] = []
program (p ∷ _) = p

-- `_run`, at the answer of the subprocess.
unfoldable pub invoked : List Text → ℕ → Invocation → Result Text
unfolding exited
invoked argv timeout file_not_found =
    raise (trivy_error (codes "trivy binary not found: " ++ program argv))
invoked argv timeout timeout_expired =
    raise (trivy_timeout (codes "trivy timed out after " ++ show_nat timeout ++ codes "s"))
invoked argv timeout (os_error name message) = raise (other name message)
invoked argv timeout (completed c) = exited c

-- `a or b`
abbrev pub or_json : Json → Json → Json
or_json a b = if truthy a then a else b

abbrev pub unknown_text : Json
unknown_text = string (codes "unknown")

no_get : Result Text
no_get = raise (other (codes "AttributeError") (codes "object has no attribute 'get'"))

module _ (subprocess : List Text → ℕ → Invocation) where
  unfoldable pub run_trivy : List Text → ℕ → Result Text
  unfolding invoked
  run_trivy argv timeout = invoked argv timeout (subprocess argv timeout)

  unfoldable pub run_scan : Text → Settings → Result Text
  unfolding run_trivy
  run_scan image_ref settings =
      run_trivy (build_argv image_ref settings) settings.trivy_timeout_seconds

module _ (str : Json → Text) where
  -- `metadata` is what reading `db/metadata.json` gives; none is an `OSError` or a
  -- `JSONDecodeError`.
  unfoldable pub db_version : Option (Result Json) → Result Text
  unfolding no_get
  db_version none = ok (codes "unknown")
  db_version (some (raise e)) = raise e
  db_version (some (ok (object payload))) = ok (
      str (
        or_json (get (codes "UpdatedAt") payload)
          (or_json (get (codes "Version") payload) unknown_text)))
  db_version (some (ok _)) = no_get

  -- The Trivy version, from the output of `trivy --version`.
  trivy_version : Text ⊎ Json → Result Text
  unfolding no_get
  trivy_version (inl message) =
      raise (trivy_error (codes "could not parse trivy --version output: " ++ message))
  trivy_version (inr (object payload)) =
      ok (str (or_json (get (codes "Version") payload) unknown_text))
  trivy_version (inr _) = no_get

  unfoldable pub probe_versions :
      (List Text → ℕ → Invocation)
      → (Text → Text ⊎ Json)
      → Option (Result Json)
      → Settings
      → Result (Text × Text)
  unfolding trivy_version db_version run_trivy
  probe_versions subprocess loads metadata settings =
      and_then
        (run_trivy subprocess
          (settings.trivy_bin ∷ codes "--version" ∷ codes "--format" ∷ codes "json" ∷ []) 60)
        (λ raw.
          and_then (trivy_version (loads raw))
            (λ version. and_then (db_version metadata) (λ db. ok (version, db))))

-- `dumps` is `json.dumps` with sorted keys, `sha256` the hash's hex digest of a text in UTF-8.
unfoldable pub scan_flags_hash : (List Text → Text) → (Text → Text) → Settings → Text
unfolding scan_flags
scan_flags_hash dumps sha256 settings = take 32 (sha256 (dumps (scan_flags settings)))
