-- ===== src/Registry/Reference/Naming.antt =====
-- Which registry and repository a name stands for (`parse_reference` of app/registry/digest.py).
use echo_security_scanner.Base.{
  ◌≡◌, refl, true, false, [], ◌∷◌, ◌++◌, Text, codes, arith, contains, is_empty,
}
use echo_security_scanner.Registry.Reference.{partition_slash, is_host, parse_reference}

partition_slash-append :
    (head rest : Text)
    → contains (codes "/") head ≡ false
    → partition_slash (head ++ b'/' ∷ rest) ≡ (head, rest)
unfolding partition_slash
partition_slash-append [] rest h = refl
partition_slash-append (c ∷ head) rest h = ground (arith, partition_slash-append head rest)

partition_slash_none :
    (name : Text) → contains (codes "/") name ≡ false → partition_slash name ≡ (name, [])
unfolding partition_slash
partition_slash_none [] h = refl
partition_slash_none (c ∷ name) h = ground (arith, partition_slash_none name)

-- A first component that looks like a host is the registry, and the rest the repository.
pub parse_reference-hosted :
    (head rest tag : Text)
    → contains (codes "/") head ≡ false
    → is_host head ≡ true
    → is_empty rest ≡ false
    → parse_reference (head ++ b'/' ∷ rest) tag
      ≡ record { host = head; repository = rest; tag = tag }
unfolding parse_reference
parse_reference-hosted head rest tag h k n = rw (partition_slash-append head rest h, k, n)
