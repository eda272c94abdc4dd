-- ===== src/Obs/Requests.antt =====
-- What a request leaves in the log (`request_context` of app/api/middleware.py).
use echo_security_scanner.Base.{
  ℕ, leb, ◌≤◌, ◌<◌, ◌≢◌, Bool-cases, text_eq, text_eq_iff, if◌then◌else◌, List, ◌≡◌, refl, ap, ◌∙◌,
  ◌⊎◌, inl, inr, some, [], ◌∷◌, ◌++◌, Text, codes, text_eq_refl, arith,
}
use echo_security_scanner.Errors.{Exception, Result, ok, raise, Exec}
use echo_security_scanner.Obs.{
  Fields, get_field, put_field, Level, LogLine, LogState, severity_of, current_fields, bind, bound,
  Request, Response, id_of, level_of, answered, request_context,
}

get_field-put_field :
    {V : Type 0} (k : Text) (v : V) (fields : Fields V)
    → get_field k (put_field (k, v) fields) ≡ some v
unfolding put_field
get_field-put_field k v [] = ground (arith, text_eq_refl k)
get_field-put_field k v (f ∷ rest) = ground (arith, get_field-put_field k v rest, text_eq_refl k)

-- The lines of a state with one more, unless its level is below the root's.
abbrev pub added : {V : Type 0} → LogState V → LogLine V → List (LogLine V)
added s line = if leb s.threshold (severity_of line.level) then s.lines ++ line ∷ [] else s.lines

-- An answer that failed is logged as an error; one to a health check else for debugging, and any other
-- for information.
abbrev pub IsLevel : Request → ℕ → Level → Type 0
IsLevel request status level =
    ((500 ≤ status) × (level ≡ Level.error))
    ⊎ ((status < 500) × (request.path ≡ codes "/health") × (level ≡ Level.debug))
    ⊎ ((status < 500) × (request.path ≢ codes "/health") × (level ≡ Level.info))

level_of-IsLevel :
    (request : Request) (status : ℕ) → IsLevel request status (level_of request status)
level_of-IsLevel request status = elim (Bool-cases (leb 500 status)) [
  | inl h ↦ inl (ground arith, ground arith)
  | inr h ↦ elim (Bool-cases (text_eq request.path (codes "/health"))) [
    | inl e ↦
        inr (inl (ground arith, (text_eq_iff request.path (codes "/health")).0 e, ground arith))
    | inr e ↦ inr (
        inr (
          ground arith,
          λ same. absurd (cc ((text_eq_iff request.path (codes "/health")).1 same, e)),
          ground arith,
        ))
  ]
]

module _ {V : Type 0} (text number : Text → V) (status : ℕ → V) (fresh elapsed : Text)
    (request : Request) (call_next : Exec (LogState V) Response) where
  -- The state in which the request is handled.
  abbrev pub entered : LogState V → LogState V
  entered s = bind ((codes "request_id", text (id_of request.request_id fresh)) ∷ []) s

  entered_id :
      (s : LogState V)
      → get_field (codes "request_id") (current_fields (entered s))
        ≡ some (text (id_of request.request_id fresh))
  unfolding bind
  entered_id s =
      get_field-put_field (codes "request_id") (text (id_of request.request_id fresh))
        (current_fields s)

  -- The call answered, and its answer goes out under the request's id, in a line of the level that its
  -- status asks for; or it raised, and so does the request, in a line at the level of an error.
  abbrev pub IsAnswered : Result Response → Result Response → LogLine V → Type 0
  IsAnswered called out line =
      ((r : Response) × (called ≡ ok r)
        × (out ≡ ok (record r { request_id = some (id_of request.request_id fresh) }))
        × IsLevel request r.status_code line.level)
      ⊎ ((e : Exception) × (called ≡ raise e) × (out ≡ raise e) × (line.level ≡ Level.error))

  answered_line :
      (r : Result Response) (s : LogState V)
      → let out =
          answered text number status (id_of request.request_id fresh) elapsed request r s in
        (line : LogLine V) × (out.1.lines ≡ added s line)
        × (line.context ≡ current_fields s)
        × IsAnswered r out.0 line
  unfolding answered
  answered_line (ok r) s =
      (_, refl, refl, inl (r, refl, refl, level_of-IsLevel request r.status_code))
  answered_line (raise e) s = (_, refl, refl, inr (e, refl, refl, refl))

  -- Where the handling of a request leaves its id bound: behind the lines of its handling the request
  -- adds one, unless its level is below the one that is configured. The line is an error where the
  -- handling raises or answers with a status from 500 on, else for debugging where the path is
  -- /health, and else for information. It carries the id that the caller gave, or a fresh one where it
  -- gave none; the answer carries it too, and what the handling raises is raised. The bound fields are
  -- then those from before.
  pub request_context_lem :
      (s : LogState V)
      → get_field (codes "request_id") (current_fields (call_next (entered s)).1)
        ≡ get_field (codes "request_id") (current_fields (entered s))
      → let out = request_context text number status fresh elapsed request call_next s in
        (line : LogLine V) × (out.1.context ≡ s.context)
        × (out.1.lines ≡ added (call_next (entered s)).1 line)
        × (get_field (codes "request_id") line.context
            ≡ some (text (id_of request.request_id fresh)))
        × IsAnswered (call_next (entered s)).0 out.0 line
  unfolding request_context bound
  request_context_lem s kept =
      let (line, lines, context, what) =
        answered_line (call_next (entered s)).0 (call_next (entered s)).1 in
      (line, refl, lines, ap (get_field (codes "request_id")) context ∙ kept ∙ entered_id s, what)
