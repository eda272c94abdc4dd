-- ===== src/Api/Freshness.antt =====
-- `apply_freshness` of app/api/deps.py. `http_date` is the formatting of the email package.
pub mod Seconds
use echo_security_scanner.Base.{
  ℕ, ◌-◌, ◌/◌, max, Bool, false, Option, none, some, List, [], ◌∷◌, ◌++◌, Text, codes, text_eq,
  show_nat,
}
use echo_security_scanner.Domain.Models.{Time, ScanRun}

-- MAX(completed_at)
unfoldable pub newest : List ScanRun → Option Time
newest [] = none
newest (r ∷ rest) = elim (newest rest) [
  | none ↦ some r.completed_at
  | some t ↦ some (max r.completed_at t)
]

-- The start of 1970, as a time.
abbrev pub epoch : Time
epoch = 62135596800000000

-- `int(newest.timestamp())`, from 1970 to the year 2500: up to there the binary64 number of seconds
-- of a moment never rounds up to the next second.
abbrev pub stamp : Time → ℕ
stamp t = (t - epoch) / 1000000

unfoldable pub etag : Time → Text
etag t = codes "W/\"" ++ (show_nat (stamp t) ++ codes "\"")

pub record Validators : Type 0 where
  pub etag : Text
  pub last_modified : Text
  pub cache_control : Text

-- `request.headers.get("if-none-match") == etag`
abbrev pub matches : Option Text → Text → Bool
matches none tag = false
matches (some asked) tag = text_eq asked tag

unfoldable pub apply_freshness :
    (Time → Text) → Option Text → List ScanRun → Option Validators × Bool
unfolding newest etag
apply_freshness http_date if_none_match runs = elim (newest runs) [
  | none ↦ (none, false)
  | some t ↦ (
    some (record {
      etag = etag t;
      last_modified = http_date t;
      cache_control = codes "public, max-age=30";
    }),
    matches if_none_match (etag t),
  )
]
