-- ===== src/Obs.antt =====
-- The fields bound to log lines (app/obs/logging.py), and the request ids of app/api/middleware.py.
-- `V` is the type of a field's value.
pub mod Requests
use echo_security_scanner.Base.{
  ℕ, Bool, Option, none, some, List, [], ◌∷◌, ◌++◌, Text, codes, text_eq, leb, if◌then◌else◌,
}
use echo_security_scanner.Errors.{Result, ok, raise, Exec}

-- A dict.
abbrev pub Fields : Type 0 → Type 0
Fields V = List (Text × V)

abbrev pub get_field : {V : Type 0} → Text → Fields V → Option V
get_field k [] = none
get_field k (f ∷ rest) = let later = get_field k rest in if text_eq f.0 k then some f.1 else later

-- `d[k] = v`: a key that is there keeps its place.
unfoldable pub put_field : {V : Type 0} → Text × V → Fields V → Fields V
put_field new [] = new ∷ []
put_field new (f ∷ rest) =
    let later = put_field new rest in if text_eq f.0 new.0 then (f.0, new.1) ∷ rest else f ∷ later

-- `{**old, **new}`
unfoldable pub merged : {V : Type 0} → Fields V → Fields V → Fields V
unfolding put_field
merged old [] = old
merged old (f ∷ rest) = merged (put_field f old) rest

pub data Level : Type 0 where
  debug info error : Level

pub record LogLine (V : Type 0) : Type 0 where
  pub level : Level
  pub msg : Text
  pub context : Fields V
  pub extra : Fields V

-- The numbers of the levels.
abbrev pub severity_of : Level → ℕ
severity_of Level.debug = 10
severity_of Level.info = 20
severity_of Level.error = 40

-- The context variable, the level that `configure` sets on the root logger, and the lines emitted so far.
pub record LogState (V : Type 0) : Type 0 where
  pub context : Option (Fields V)
  pub threshold : ℕ
  pub lines : List (LogLine V)

-- `_current`
abbrev pub current_fields : {V : Type 0} → LogState V → Fields V
current_fields s = elim s.context [ none ↦ [] | some fields ↦ fields ]

-- A log call, as `_ContextFilter` completes its record; below the root's level it emits nothing.
abbrev pub emit : {V : Type 0} → Level → Text → Fields V → LogState V → LogState V
emit {V} level msg extra s =
    let line : LogLine V = record {
      level = level;
      msg = msg;
      context = current_fields s;
      extra = extra;
    } in
    record s {
      lines = if leb s.threshold (severity_of level) then s.lines ++ line ∷ [] else s.lines;
    }

-- `bind`
unfoldable pub bind : {V : Type 0} → Fields V → LogState V → LogState V
unfolding merged
bind fields s = record s { context = some (merged (current_fields s) fields) }

-- `with bound(...)`: the variable is reset however the block ends.
unfoldable pub bound : {V A : Type 0} → Fields V → Exec (LogState V) A → Exec (LogState V) A
unfolding bind
bound fields block s = let (r, s') = block (bind fields s) in (r, record s' { context = s.context })

pub record Request : Type 0 where
  pub method : Text
  pub path : Text
  pub request_id : Option Text

pub record Response : Type 0 where
  pub status_code : ℕ
  pub request_id : Option Text

-- `request.headers.get(...) or ...`
abbrev pub id_of : Option Text → Text → Text
id_of none fresh = fresh
id_of (some []) fresh = fresh
id_of (some (c ∷ cs)) fresh = c ∷ cs

abbrev pub level_of : Request → ℕ → Level
level_of request status =
    if leb 500 status
    then Level.error
    else if text_eq request.path (codes "/health")
    then Level.debug
    else Level.info

module _ {V : Type 0} (text number : Text → V) (status : ℕ → V) where
  -- What follows the call: `elapsed` is the time that it took.
  unfoldable pub answered : Text → Text → Request → Result Response → Exec (LogState V) Response
  answered request_id elapsed request (raise e) s = (
    raise e,
    emit Level.error (codes "request failed")
        ((codes "method", text request.method)
          ∷ (codes "path", text request.path)
          ∷ (codes "duration_ms", number elapsed)
          ∷ [])
        s,
  )
  answered request_id elapsed request (ok response) s = (
    ok (record response { request_id = some request_id }),
    emit (level_of request response.status_code) (codes "request")
        ((codes "method", text request.method)
          ∷ (codes "path", text request.path)
          ∷ (codes "status", status response.status_code)
          ∷ (codes "duration_ms", number elapsed)
          ∷ [])
        s,
  )

  -- `fresh` is the id that `uuid4` gives.
  unfoldable pub request_context :
      Text → Text → Request → Exec (LogState V) Response → Exec (LogState V) Response
  unfolding answered bound
  request_context fresh elapsed request call_next =
      let request_id = id_of request.request_id fresh in
      bound ((codes "request_id", text request_id) ∷ [])
        (λ s. let (r, s') = call_next s in answered request_id elapsed request r s')

-- `unhandled_error`: the answer to a request whose handling raised; `request_id` is what
-- `request_context` left in the request's state.
abbrev pub unhandled_error : Option Text → Response
unhandled_error none = record { status_code = 500; request_id = none }
unhandled_error (some []) = record { status_code = 500; request_id = none }
unhandled_error (some (c ∷ cs)) = record { status_code = 500; request_id = some (c ∷ cs) }
