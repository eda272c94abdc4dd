-- ===== src/Api/Requests.antt =====
-- `request_scan` of app/api/routes/images.py, and the session around it (`get_session` of
-- app/db/session.py), which rolls back what the handler did not commit.
pub mod Answers
use echo_security_scanner.Base.{
  ℕ, Bool, true, false, ◌&&◌, Option, none, some, List, [], ◌∷◌, Text, codes, text_eq,
  if◌then◌else◌, filter,
}
use echo_security_scanner.Errors.{other, Result, ok, Exec, ◌>>=◌, ◌>>◌, pure, throw}
use echo_security_scanner.Domain.Models.{Image}
use echo_security_scanner.Domain.Database.{Session, commit, rollback, execute}
use echo_security_scanner.Jobs.Queue.{
  Clocks, priority_scheduled, priority_time_sensitive, enqueue, promote,
}

-- The 404, and the three kinds of `ScanRequestAccepted` with their job.
pub data Reply : Type 0 where
  unknown_image : Reply
  queued : ℕ → Reply
  promoted : ℕ → Reply
  already_queued : Reply

abbrev pub is_named : Text → Text → Image → Bool
is_named name tag i = text_eq i.name name && text_eq i.tag tag

abbrev pub requested_priority : Bool → ℕ
requested_priority time_sensitive =
    if time_sensitive then priority_time_sensitive else priority_scheduled

-- What is answered after a promotion was tried.
after_promotion : Option ℕ → Exec Session Reply
after_promotion (some job_id) = do commit; pure (promoted job_id)
after_promotion none = pure already_queued

-- What is answered after the enqueueing.
after_enqueueing : Clocks → Image → Bool → Option ℕ → Exec Session Reply
unfolding after_promotion
after_enqueueing now image time_sensitive (some job_id) = do commit; pure (queued job_id)
after_enqueueing now image true none = execute (promote now image.id) >>= after_promotion
after_enqueueing now image false none = pure already_queued

-- `scalar_one_or_none()` of the images, and the rest of the handler.
answered : Clocks → Bool → List Image → Exec Session Reply
unfolding after_enqueueing
answered now time_sensitive [] = pure unknown_image
answered now time_sensitive (image ∷ []) =
    execute (enqueue now image.id (requested_priority time_sensitive) none)
    >>= after_enqueueing now image time_sensitive
answered now time_sensitive (i ∷ j ∷ rest) = throw (other (codes "MultipleResultsFound") [])

unfoldable pub request_scan : Clocks → Text → Text → Bool → Exec Session Reply
unfolding answered
request_scan now name tag time_sensitive s =
    answered now time_sensitive (filter (is_named name tag) s.current.images) s

-- The request as the client meets it: the session is closed behind the handler.
unfoldable pub request : Clocks → Text → Text → Bool → Exec Session Reply
unfolding request_scan
request now name tag time_sensitive s =
    let (r, s') = request_scan now name tag time_sensitive s in (r, (rollback s').1)
