-- ===== src/Registry/Reference.antt =====
-- `parse_reference` of app/registry/digest.py.
pub mod Naming
use echo_security_scanner.Base.{
  ℕ, Bool, true, false, not, ◌&&◌, ◌||◌, List, [], ◌∷◌, ◌++◌, Text, codes, text_eq, is_empty,
  contains, ◌==◌, if◌then◌else◌,
}

pub record ImageReference : Type 0 where
  pub host : Text
  pub repository : Text
  pub tag : Text

abbrev pub docker_hub_host : Text
docker_hub_host = codes "registry-1.docker.io"

-- The first and the last part of `name.partition("/")`.
unfoldable pub partition_slash : Text → Text × Text
partition_slash [] = ([], [])
partition_slash (c ∷ cs) =
    let (head, rest) = partition_slash cs in if c == b'/' then ([], cs) else (c ∷ head, rest)

-- A leading component is a host only if it looks like one.
unfoldable pub is_host : Text → Bool
is_host head =
    contains (codes ".") head || contains (codes ":") head || text_eq head (codes "localhost")

unfoldable pub parse_reference : Text → Text → ImageReference
unfolding partition_slash is_host
parse_reference name tag =
    let (head, rest) = partition_slash name in
    if not (is_empty rest) && is_host head
    then record { host = head; repository = rest; tag = tag }
    else record {
      host = docker_hub_host;
      repository = if contains (codes "/") name then name else codes "library/" ++ name;
      tag = tag;
    }
