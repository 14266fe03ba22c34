-- ===== src/Audit/Recorder.antt =====
-- backend/app/audit/recorder.py: an audit event is written once for each idempotency key.
-- The request's texts are taken to be of admissible length and form; the columns `action`,
-- `category`, `source` and the redacted summary and metadata are not modelled.
use mathlib.Core.Bool.{decide}
use intelligent_agent_platfo.Base.{
  ◌≡◌, refl, Bool, false, ◌&&◌, not, Option, none, some, List, ◌∷◌, find, ◌==◌, arith,
}
use intelligent_agent_platfo.Effects.{◌>>=◌, ◌>>◌, ok, gets, modify, raise_if}
use intelligent_agent_platfo.Database.{
  Text, Store, AuditEvent, AuditKey, AuditKey-discrete, Db, value_error,
}

abbrev pub has_key : AuditKey → AuditEvent → Bool
has_key k a = decide (AuditKey-discrete a.idempotency_key k)

abbrev pub is_given : Option Text → Bool
is_given none = false
is_given (some t) = not (t == 0)

-- `_validate`, of a project event: the unit and the project are non-empty texts.
unfoldable pub validate : AuditEvent → Bool
validate request = is_given request.unit_id && is_given request.project_id

abbrev pub insert_once : Option AuditEvent → AuditEvent → Store → Store
insert_once none request s = record s { audits = request ∷ s.audits }
insert_once (some _) request s = s

unfoldable pub audit_record : AuditEvent → Db (Unit {0})
unfolding validate
audit_record request = do
  raise_if (not (validate request)) value_error
  existing ← gets (λ s. find (has_key request.idempotency_key) s.audits)
  modify (insert_once existing request)

-- Recording an event writes to the audit table only.
pub audit_record_ok :
    (request : AuditEvent) (s t : Store) (v : Unit {0})
    → audit_record request s ≡ (ok v, t)
    → (a : List AuditEvent) × (t ≡ record s { audits = a })
unfolding audit_record
audit_record_ok request s t v h = go (find (has_key request.idempotency_key) s.audits) refl
  where
    go :
        (o : Option AuditEvent)
        → find (has_key request.idempotency_key) s.audits ≡ o
        → (a : List AuditEvent) × (t ≡ record s { audits = a })
    go none e = (request ∷ s.audits, ground (arith, h, e))
    go (some old) e = (s.audits, ground (arith, h, e))
