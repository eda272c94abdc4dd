-- ===== src/Domain/Severity.antt =====
-- app/domain/severity.py: severities, their ranks, and the reading of a severity string.
pub mod Order
use echo_security_scanner.Base.{
  ℕ, ◌-◌, ◌&&◌, Option, none, some, List, [], ◌∷◌, ◌++◌, Text, codes, text_eq, strip, is_empty,
  ◌==◌, ltb, leb, if◌then◌else◌,
}

pub data Severity : Type 0 where
  unknown low medium high critical : Severity

-- The enum's values.
unfoldable pub value : Severity → Text
value unknown = codes "UNKNOWN"
value low = codes "LOW"
value medium = codes "MEDIUM"
value high = codes "HIGH"
value critical = codes "CRITICAL"

-- `SEVERITY_RANK`, which `rank` reads.
abbrev pub rank : Severity → ℕ
rank unknown = 0
rank low = 1
rank medium = 2
rank high = 3
rank critical = 4

-- `RANK_TO_SEVERITY`
abbrev pub rank_to_severity : ℕ → Option Severity
rank_to_severity r =
    if r == 0
    then some unknown
    else if r == 1
    then some low
    else if r == 2
    then some medium
    else if r == 3
    then some high
    else if r == 4
    then some critical
    else none

abbrev pub filterable : List Severity
filterable = critical ∷ high ∷ medium ∷ low ∷ []

-- `str.upper()` at one code point. Of the code points above ASCII, those stand here whose upper
-- case holds an ASCII letter; the others have no ASCII letter in their upper case, and stay.
upper_char : ℕ → Text
upper_char c =
    if leb b'a' c && leb c b'z'
    then (c - 32) ∷ []
    else if c == 0xDF
    then codes "SS"
    else if c == 0x131
    then codes "I"
    else if c == 0x149
    then 0x2BC ∷ codes "N"
    else if c == 0x17F
    then codes "S"
    else if c == 0x1F0
    then codes "J" ++ 0x30C ∷ []
    else if c == 0x1E96
    then codes "H" ++ 0x331 ∷ []
    else if c == 0x1E97
    then codes "T" ++ 0x308 ∷ []
    else if c == 0x1E98
    then codes "W" ++ 0x30A ∷ []
    else if c == 0x1E99
    then codes "Y" ++ 0x30A ∷ []
    else if c == 0x1E9A
    then codes "A" ++ 0x2BE ∷ []
    else if c == 0xFB00
    then codes "FF"
    else if c == 0xFB01
    then codes "FI"
    else if c == 0xFB02
    then codes "FL"
    else if c == 0xFB03
    then codes "FFI"
    else if c == 0xFB04
    then codes "FFL"
    else if c == 0xFB05
    then codes "ST"
    else if c == 0xFB06
    then codes "ST"
    else c ∷ []

unfoldable pub upper : Text → Text
unfolding upper_char
upper [] = []
upper (c ∷ cs) = upper_char c ++ upper cs

-- `Severity(text)`, with `none` for the `ValueError`.
unfoldable pub of_value : Text → Option Severity
unfolding value text_eq
of_value t =
    if text_eq t (value unknown)
    then some unknown
    else if text_eq t (value low)
    then some low
    else if text_eq t (value medium)
    then some medium
    else if text_eq t (value high)
    then some high
    else if text_eq t (value critical)
    then some critical
    else none

or_unknown : Option Severity → Severity
or_unknown none = unknown
or_unknown (some s) = s

unfoldable pub parse_severity : Option Text → Severity
unfolding or_unknown of_value upper strip
parse_severity none = unknown
parse_severity (some raw) =
    if is_empty raw then unknown else or_unknown (of_value (upper (strip raw)))

-- `max(…, key=rank)` keeps the first of the greatest.
unfoldable pub max_from : Severity → List Severity → Severity
max_from best [] = best
max_from best (s ∷ rest) = max_from (if ltb (rank best) (rank s) then s else best) rest

unfoldable pub max_severity : List Severity → Severity
unfolding max_from
max_severity [] = unknown
max_severity (s ∷ rest) = max_from s rest
