-- ===== src/Api/Params.antt =====
-- `page_params` and `severity_filter` of app/api/deps.py.
pub mod Bounds
use echo_security_scanner.Base.{
  ℕ, min, Bool, true, false, Option, none, some, Text, codes, strip, or_else_nat, leb,
  if◌then◌else◌,
}
use echo_security_scanner.Domain.Severity.{
  Severity, unknown, low, medium, high, critical, of_value, upper,
}
use echo_security_scanner.Config.{Settings}

pub record PageParams : Type 0 where
  pub limit : ℕ
  pub offset : ℕ

-- The answers to a query's parameters: the value, or the status of an error.
pub data Checked (A : Type 0) : Type 0 where
  accepted : A → Checked A
  rejected : ℕ → Checked A

-- `Query(default=None, ge=1)`, whose failure the framework answers with 422.
unfoldable pub page_params : Option ℕ → ℕ → Settings → Checked PageParams
page_params none offset settings =
    accepted
      (record { limit = min settings.page_size_default settings.page_size_max; offset = offset })
page_params (some limit) offset settings =
    if leb 1 limit
    then accepted (record { limit = min limit settings.page_size_max; offset = offset })
    else rejected 422

-- `parsed not in FILTERABLE`, also for the `None` of a `ValueError`.
filterable_only : Option Severity → Checked (Option Severity)
filterable_only none = rejected 400
filterable_only (some unknown) = rejected 400
filterable_only (some s) = accepted (some s)

unfoldable pub severity_filter : Option Text → Checked (Option Severity)
unfolding filterable_only
severity_filter none = accepted none
severity_filter (some raw) = filterable_only (of_value (upper (strip raw)))
