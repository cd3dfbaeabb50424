-- ===== src/Server/Envelopes.antt =====
-- What becomes of a request that brings an event, from the handler to the row.
use warnly.Base.{
  ◌≡◌, refl, ap, ◌⊎◌, Option, some, [], ◌∷◌, ◌++◌, Bytes, Result, ok, err, inl, inr, none, or_err,
  ◌>>?◌,
}
use warnly.Db.Tables.{project_not_found}
use warnly.Event.Body.{EventBody, EventClickhouse}
use warnly.Event.Row.{RowContext, row_of}
use warnly.Event.Ingest.{IngestRequest, Intake, IngestError, stored, EventService, ingest_event}
use warnly.Event.Delivery.{Kept, IsDelivered, ingest_event-IsDelivered}
use warnly.Server.Ingest.{
  IngestHttp, IngestReply, accepted, bad_request, internal_error, reply_of, ReadError, eof,
  too_large, unreadable, read_body, invalid_project, invalid_dsn, no_project, key_of_header, split,
  third_line, decoded, event_of_line, checked, answered, ingest,
}

abbrev pub IsBadRequest : IngestReply → Type 0
IsBadRequest (bad_request detail causes) = Unit
IsBadRequest (accepted id) = ⊥
IsBadRequest internal_error = ⊥

abbrev OnlyBad : {A : Type 0} → Result IngestReply A → Type 0
OnlyBad (ok a) = Unit
OnlyBad (err reply) = IsBadRequest reply

OnlyBad->>? :
    {A B : Type 0} (r : Result IngestReply A) (k : A → Result IngestReply B)
    → OnlyBad r
    → ((a : A) → OnlyBad (k a))
    → OnlyBad (r >>? k)
OnlyBad->>? (ok a) k h rest = rest a
OnlyBad->>? (err reply) k h rest = h

or_err-OnlyBad :
    {A : Type 0} (o : Option A) (reply : IngestReply)
    → IsBadRequest reply
    → OnlyBad (or_err o reply)
or_err-OnlyBad none reply h = h
or_err-OnlyBad (some a) reply h = tt

read_body-OnlyBad : (b : Result ReadError Bytes) → OnlyBad (read_body b)
read_body-OnlyBad (ok b) = tt
read_body-OnlyBad (err eof) = tt
read_body-OnlyBad (err too_large) = tt
read_body-OnlyBad (err unreadable) = tt

module _ {V : Type 0} (svc : EventService V) (unmarshal : Bytes → Option (EventBody V))
    (new_id : Bytes) where
  decoded-OnlyBad : (o : Option (EventBody V)) → OnlyBad (decoded svc unmarshal new_id o)
  unfolding decoded
  decoded-OnlyBad none = tt
  decoded-OnlyBad (some event) = tt

  event_of_line-OnlyBad : (o : Option Bytes) → OnlyBad (event_of_line svc unmarshal new_id o)
  unfolding event_of_line
  event_of_line-OnlyBad none = tt
  event_of_line-OnlyBad (some line) = decoded-OnlyBad (unmarshal line)

  checked-OnlyBad : (r : IngestHttp) → OnlyBad (checked svc unmarshal new_id r)
  unfolding checked
  checked-OnlyBad r =
      OnlyBad->>? (or_err r.path_id invalid_project) _ (or_err-OnlyBad r.path_id _ tt) (λ id.
        OnlyBad->>? (or_err (key_of_header svc unmarshal new_id r.sentry_auth) invalid_dsn) _
          (or_err-OnlyBad (key_of_header svc unmarshal new_id r.sentry_auth) _ tt)
          (λ key. OnlyBad->>? (read_body r.body) _ (read_body-OnlyBad r.body) (λ content.
            OnlyBad->>? (event_of_line svc unmarshal new_id (third_line (split 10 content))) _
              (event_of_line-OnlyBad (third_line (split 10 content))) (λ event. tt))))

  -- A row more than before.
  abbrev pub IsHandedOn : Intake → Intake → EventClickhouse → Type 0
  IsHandedOn w v row =
      ((v.produced ≡ w.produced ++ row ∷ []) × (v.events ≡ w.events))
      ⊎ ((v.produced ≡ w.produced) × (v.events ≡ w.events ++ row ∷ []))

  -- How the handler may end: a bad request changes nothing; the service's error hands on no row;
  -- and an event is accepted with the id of the one row that is handed on.
  abbrev pub IsAnswered : IngestHttp → Intake → IngestReply × Intake → Type 0
  unfolding row_of checked
  IsAnswered r w answer =
      (IsBadRequest answer.0 × (answer.1 ≡ w))
      ⊎ ((req : IngestRequest V) × (checked svc unmarshal new_id r ≡ ok req)
          × ((((answer.0 ≡ no_project) ⊎ (answer.0 ≡ internal_error)) × Kept w answer.1)
              ⊎ ((row : EventClickhouse) × (at : RowContext) × (row_of svc.lib req.event at
                    ≡ some row)
                  × (answer.0 ≡ accepted row.stored_event_id)
                  × IsHandedOn w answer.1 row)))

  refused :
      (e : IngestError) → (reply_of (err e) ≡ no_project) ⊎ (reply_of (err e) ≡ internal_error)
  refused (stored project_not_found) = inl refl
  refused e = inr refl

  delivered :
      (r : IngestHttp) (w : Intake) (req : IngestRequest V)
      → checked svc unmarshal new_id r ≡ ok req
      → IsDelivered svc req w (ingest_event svc req w)
      → IsAnswered r w (answered svc unmarshal new_id (ok req) w)
  unfolding answered IsAnswered IsDelivered
  delivered r w req e (inl (reason, failed, kept)) =
      inr (req, e, inl (rw failed (refused reason), (kept.0, kept.1)))
  delivered r w req e (inr (row, at, made, given, handed)) =
      inr (req, e, inr (row, at, made, ap reply_of given, handed))

  settled :
      (r : IngestHttp) (w : Intake) (c : Result IngestReply (IngestRequest V))
      → checked svc unmarshal new_id r ≡ c
      → OnlyBad c
      → IsAnswered r w (answered svc unmarshal new_id c w)
  unfolding answered IsAnswered
  settled r w (ok req) e bad = delivered r w req e (ingest_event-IsDelivered svc req w)
  settled r w (err reply) e bad = inl (bad, refl)

  pub ingest-IsAnswered :
      (r : IngestHttp) (w : Intake) → IsAnswered r w (ingest svc unmarshal new_id r w)
  unfolding ingest
  ingest-IsAnswered r w = settled r w (checked svc unmarshal new_id r) refl (checked-OnlyBad r)
