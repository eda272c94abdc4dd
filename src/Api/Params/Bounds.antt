-- ===== src/Api/Params/Bounds.antt =====
-- What a page and a filter may be (app/api/deps.py).
use echo_security_scanner.Base.{
  ℕ, ◌≤◌, ◌≡◌, ◌≢◌, ◌↔◌, refl, ap, ◌∙◌, Option, some, Text, strip, arith, text_eq, text_eq_iff,
}
use echo_security_scanner.Domain.Severity.{
  Severity, unknown, low, medium, high, critical, value, of_value, upper,
}
use echo_security_scanner.Config.{Settings}
use echo_security_scanner.Api.Params.{
  PageParams, accepted, page_params, filterable_only, severity_filter,
}

-- A page that is accepted has at least one row and at most `page_size_max`, where the settings' own
-- sizes are positive, and begins at the offset asked for.
pub page_params_bounded :
    (limit : Option ℕ) (offset : ℕ) (settings : Settings) (p : PageParams)
    → 1 ≤ settings.page_size_default
    → 1 ≤ settings.page_size_max
    → page_params limit offset settings ≡ accepted p
    → (1 ≤ p.limit) × (p.limit ≤ settings.page_size_max) × (p.offset ≡ offset)
unfolding page_params
page_params_bounded limit offset settings p d m h = ground arith

of_value-value : (s : Severity) → of_value (value s) ≡ some s
unfolding of_value value text_eq
of_value-value unknown = refl
of_value-value low = refl
of_value-value medium = refl
of_value-value high = refl
of_value-value critical = refl

value_of : (t : Text) (s : Severity) → of_value t ≡ some s → t ≡ value s
unfolding of_value
value_of t s h = ground (
  arith,
  text_eq_iff t (value unknown),
  text_eq_iff t (value low),
  text_eq_iff t (value medium),
  text_eq_iff t (value high),
  text_eq_iff t (value critical),
)

of_value_lem : (t : Text) (s : Severity) → (of_value t ≡ some s) ↔ (t ≡ value s)
of_value_lem t s = (value_of t s, λ h. ap of_value h ∙ of_value-value s)

filterable_only_lem :
    (o : Option Severity) (s : Severity)
    → (filterable_only o ≡ accepted (some s)) ↔ ((o ≡ some s) × (s ≢ unknown))
unfolding filterable_only
filterable_only_lem o s = ground arith

-- A filter is accepted exactly for a text that is the name of a severity other than UNKNOWN, in any
-- case and with any space around it.
pub severity_filter_accepts :
    (raw : Text) (s : Severity)
    → (severity_filter (some raw) ≡ accepted (some s))
      ↔ ((upper (strip raw) ≡ value s) × (s ≢ unknown))
unfolding severity_filter
severity_filter_accepts raw s = (
  λ h.
      let f = (filterable_only_lem (of_value (upper (strip raw))) s).0 h in
      ((of_value_lem (upper (strip raw)) s).0 f.0, f.1),
  λ h.
      (filterable_only_lem (of_value (upper (strip raw))) s).1
        ((of_value_lem (upper (strip raw)) s).1 h.0, h.1),
)
