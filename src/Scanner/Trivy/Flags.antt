-- ===== src/Scanner/Trivy/Flags.antt =====
-- Which settings the skip invariant sees (`scan_flags` of app/scanner/trivy.py).
use echo_security_scanner.Base.{◌≡◌, ◌↔◌, Option, none, some, List, [], ◌∷◌, ◌++◌, ap, Text, arith}
use echo_security_scanner.Config.{Settings}
use echo_security_scanner.Scanner.Trivy.{scan_flags, server_flags, result_flags}

-- The server that a setting names, if it names one.
abbrev pub server : Option Text → Option Text
server none = none
server (some []) = none
server (some (c ∷ cs)) = some (c ∷ cs)

append_left : {A : Type 0} (xs : List A) {ys zs : List A} → xs ++ ys ≡ xs ++ zs → ys ≡ zs
append_left [] h = h
append_left (x ∷ xs) h = append_left xs (cc h)

server_of_flags : (a b : Option Text) → server_flags a ≡ server_flags b → server a ≡ server b
server_of_flags a b h = ground arith

flags_of_server : (a b : Option Text) → server a ≡ server b → server_flags a ≡ server_flags b
flags_of_server a b h = ground arith

-- The flags that the skip invariant hashes are equal exactly where the two settings name the same
-- server, an empty URL standing for none: nothing else in the settings, and no image, is among them.
pub scan_flags-server :
    (s t : Settings)
    → (scan_flags s ≡ scan_flags t) ↔ (server s.trivy_server_url ≡ server t.trivy_server_url)
unfolding scan_flags
scan_flags-server s t = (
  λ h. server_of_flags s.trivy_server_url t.trivy_server_url (append_left result_flags h),
  λ h. ap (λ f. result_flags ++ f) (flags_of_server s.trivy_server_url t.trivy_server_url h),
)
