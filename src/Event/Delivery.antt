-- ===== src/Event/Delivery.antt =====
-- How many rows `IngestEvent` of internal/svc/event/event.go hands on.
use warnly.Base.{
  ℕ, ◌+◌, ◌≡◌, refl, ap, ◌∙◌, Option, none, some, [], ◌∷◌, ◌++◌, Bytes, length, Result, ok, err,
  and_then, ◌>>=◌, pure, ◌⊎◌, inl, inr, Bool-cases,
}
use warnly.Db.Tables.{Db, DbError, M, Issue, read_clock}
use warnly.Db.Issues.{update_last_seen, store_issue_row, get_issue_by_hash, get_options}
use warnly.Event.Body.{EventBody, EventClickhouse}
use warnly.Event.Row.{RowContext, row_of}
use warnly.Event.Ingest.{
  Intake, IngestError, I, EventService, IngestRequest, IssueInfo, ProjectOptions, with_tables,
  in_tables, known_issue, value_or, extract_ip, cached_options, options_or_load,
  get_project_options, joined_flight, fly, touch_issue, numbered, store_fresh, fresh_issue,
  issue_or_new, cached_issue, info_or_load, deliver_row, ingest_event, cache_key, bad_context,
  hand_on, context_of,
}

-- The rows handed on are the same.
abbrev pub Kept : Intake → Intake → Type 0
Kept w v = (v.produced ≡ w.produced) × (v.events ≡ w.events)

abbrev pub Keeps : {A : Type 0} → I A → Type 0
Keeps m = (w : Intake) → Kept w (m w).1

trans_Kept : (u v w : Intake) → Kept u v → Kept v w → Kept u w
trans_Kept u v w (p, q) (p', q') = (p' ∙ p, q' ∙ q)

and_then-Keeps :
    {A B : Type 0} (r : Result IngestError A × Intake) (k : A → I B)
    → ((a : A) → Keeps (k a))
    → Kept r.1 (and_then r k).1
and_then-Keeps (ok a, w) k h = h a w
and_then-Keeps (err e, w) k h = (refl, refl)

Keeps->>= :
    {A B : Type 0} (m : I A) (k : A → I B) → Keeps m → ((a : A) → Keeps (k a)) → Keeps (m >>= k)
Keeps->>= m k hm hk w = trans_Kept w (m w).1 (and_then (m w) k).1 (hm w) (and_then-Keeps (m w) k hk)

with_tables-Kept :
    {A : Type 0} (r : Result DbError A × Db) (w : Intake) → Kept w (with_tables r w).1
with_tables-Kept (ok a, db) w = (refl, refl)
with_tables-Kept (err e, db) w = (refl, refl)

in_tables-Keeps : {A : Type 0} (m : M A) → Keeps (in_tables m)
unfolding in_tables
in_tables-Keeps m w = with_tables-Kept (m w.db) w

value_or-Keeps : {A : Type 0} (o : Option A) (e : IngestError) → Keeps (value_or o e)
value_or-Keeps none e w = (refl, refl)
value_or-Keeps (some a) e w = (refl, refl)

module _ {V : Type 0} (svc : EventService V) where
  joined_flight-Keeps :
      (o : Option (Result DbError (Unit {0}))) (call : I (Unit {0}))
      → Keeps call
      → Keeps (joined_flight svc o call)
  joined_flight-Keeps none call h = h
  joined_flight-Keeps (some r) call h = in_tables-Keeps (λ db. (r, db))

  fly-Keeps : (call : I (Unit {0})) → Keeps call → Keeps (fly svc call)
  unfolding fly
  fly-Keeps call h w =
      joined_flight-Keeps (svc.in_flight w.flights) call h (record w { flights = w.flights + 1 })

  touch_issue-Keeps : (event : EventBody V) (issue_id : ℕ) → Keeps (touch_issue svc event issue_id)
  unfolding touch_issue
  touch_issue-Keeps event issue_id =
      Keeps->>= (in_tables (read_clock svc.env)) _ (in_tables-Keeps (read_clock svc.env)) (λ now.
        fly-Keeps (in_tables (update_last_seen svc.env _))
          (in_tables-Keeps (update_last_seen svc.env _)))

  numbered-Keeps :
      (o : Option (Result DbError (Unit {0}))) (issue : Issue) → Keeps (numbered svc o issue)
  numbered-Keeps none issue =
      Keeps->>= (in_tables (store_issue_row svc.env issue)) _
        (in_tables-Keeps (store_issue_row svc.env issue)) (λ id w. (refl, refl))
  numbered-Keeps (some r) issue =
      Keeps->>= (in_tables (λ db. (r, db))) _ (in_tables-Keeps (λ db. (r, db)))
        (λ u w. (refl, refl))

  store_fresh-Keeps : (issue : Issue) → Keeps (store_fresh svc issue)
  unfolding store_fresh
  store_fresh-Keeps issue w =
      numbered-Keeps (svc.in_flight w.flights) issue (record w { flights = w.flights + 1 })

  issue_or_new-Keeps : (req : IngestRequest V) (o : Option Issue) → Keeps (issue_or_new svc req o)
  unfolding issue_or_new
  issue_or_new-Keeps req (some issue) =
      Keeps->>= (touch_issue svc req.event issue.id) _ (touch_issue-Keeps req.event issue.id)
        (λ u w. (refl, refl))
  issue_or_new-Keeps req none =
      Keeps->>= (in_tables (read_clock svc.env)) _ (in_tables-Keeps (read_clock svc.env))
        (λ now w. store_fresh-Keeps (fresh_issue svc req now w.db.statements) w)

  info_or_load-Keeps :
      (req : IngestRequest V) (o : Option IssueInfo) → Keeps (info_or_load svc req o)
  unfolding info_or_load
  info_or_load-Keeps req (some info) =
      Keeps->>= (touch_issue svc req.event info.id) _ (touch_issue-Keeps req.event info.id)
        (λ u w. (refl, refl))
  info_or_load-Keeps req none =
      Keeps->>= (in_tables (known_issue (get_issue_by_hash svc.env req.project_id _))) _
        (in_tables-Keeps _)
        (λ found.
          Keeps->>= (issue_or_new svc req found) _ (issue_or_new-Keeps req found)
            (λ issue w. (refl, refl)))

  options_or_load-Keeps :
      (req : IngestRequest V) (o : Option ProjectOptions) → Keeps (options_or_load svc req o)
  unfolding options_or_load
  options_or_load-Keeps req (some opts) = λ w. (refl, refl)
  options_or_load-Keeps req none =
      Keeps->>= (in_tables (get_options svc.env req.project_id req.project_key)) _
        (in_tables-Keeps _) (λ project w. (refl, refl))

  get_project_options-Keeps : (req : IngestRequest V) → Keeps (get_project_options svc req)
  unfolding get_project_options cached_options
  get_project_options-Keeps req =
      Keeps->>= (cached_options svc _) (options_or_load svc req) (λ w. (refl, refl))
        (options_or_load-Keeps req)

  extract_ip-Keeps : (address : Bytes) → Keeps (extract_ip svc address)
  unfolding extract_ip
  extract_ip-Keeps address =
      Keeps->>= (value_or (svc.split_host_port address) _) _
        (value_or-Keeps (svc.split_host_port address) _)
        (λ ip.
          Keeps->>= (value_or (svc.parse_addr ip) _) _ (value_or-Keeps (svc.parse_addr ip) _)
            (λ addr w. (refl, refl)))

  cached_issue-Keeps : (key : Bytes) → Keeps (cached_issue svc key)
  unfolding cached_issue
  cached_issue-Keeps key w = (refl, refl)

  -- How a call may end: with an error and no row, or with the id of the one row that was handed on.
  unfoldable pub IsDelivered : IngestRequest V → Intake → Result IngestError Bytes × Intake → Type 0
  unfolding row_of
  IsDelivered req w r =
      ((e : IngestError) × (r.0 ≡ err e) × Kept w r.1)
      ⊎ ((row : EventClickhouse) × (at : RowContext) × (row_of svc.lib req.event at ≡ some row)
          × (r.0 ≡ ok row.stored_event_id)
          × (((r.1.produced ≡ w.produced ++ row ∷ []) × (r.1.events ≡ w.events))
              ⊎ ((r.1.produced ≡ w.produced) × (r.1.events ≡ w.events ++ row ∷ []))))

  -- After a step that hands on no row, what is to be shown of the rest.
  and_then-IsDelivered :
      {A : Type 0} (req : IngestRequest V) (w : Intake) (r : Result IngestError A × Intake)
      (k : A → I Bytes)
      → Kept w r.1
      → ((a : A) (v : Intake) → Kept w v → IsDelivered req w (k a v))
      → IsDelivered req w (and_then r k)
  unfolding IsDelivered
  and_then-IsDelivered req w (ok a, v) k kept rest = rest a v kept
  and_then-IsDelivered req w (err e, v) k kept rest = inl (e, refl, kept)

  IsDelivered->>= :
      {A : Type 0} (req : IngestRequest V) (w v : Intake) (m : I A) (k : A → I Bytes)
      → Keeps m
      → Kept w v
      → ((a : A) (u : Intake) → Kept w u → IsDelivered req w (k a u))
      → IsDelivered req w ((m >>= k) v)
  IsDelivered->>= req w v m k keeps kept =
      and_then-IsDelivered req w (m v) k (trans_Kept w v (m v).1 kept (keeps v))

  handed_on :
      (req : IngestRequest V) (w v : Intake) (at : RowContext) (row : EventClickhouse)
      → Kept w v
      → row_of svc.lib req.event at ≡ some row
      → IsDelivered req w ((deliver_row svc row >>= λ _. pure row.stored_event_id) v)
  unfolding deliver_row IsDelivered
  handed_on req w v at row (p, q) made = elim (Bool-cases svc.queue_enabled) [
    | inl queue ↦ elim (Bool-cases (svc.encodes row)) [
      | inl encodes ↦ elim (Bool-cases (svc.produces (length v.produced))) [
        | inl takes ↦
            rw (queue, encodes, takes, deliver_row)
              (inr (row, at, made, refl, inl (ap (λ rows. rows ++ row ∷ []) p, q)))
        | inr refuses ↦ rw (queue, encodes, refuses, deliver_row) (inl (_, refl, (p, q)))
      ]
      | inr not_encoded ↦ rw (queue, not_encoded, deliver_row) (inl (_, refl, (p, q)))
    ]
    | inr direct ↦ elim (Bool-cases (svc.stores (length v.events))) [
      | inl takes ↦
          rw (direct, takes, deliver_row)
            (inr (row, at, made, refl, inr (p, ap (λ rows. rows ++ row ∷ []) q)))
      | inr refuses ↦ rw (direct, refuses, deliver_row) (inl (_, refl, (p, q)))
    ]
  ]

  made_or_not :
      (req : IngestRequest V) (w v : Intake) (at : RowContext) (o : Option EventClickhouse)
      → row_of svc.lib req.event at ≡ o
      → Kept w v
      → IsDelivered req w (
          (value_or o bad_context >>= λ row. deliver_row svc row >>= λ _. pure row.stored_event_id)
            v)
  unfolding IsDelivered
  made_or_not req w v at none made kept = inl (bad_context, refl, kept)
  made_or_not req w v at (some row) made kept = handed_on req w v at row kept made

  hand_on-IsDelivered :
      (req : IngestRequest V) (w v : Intake) (at : RowContext)
      → Kept w v
      → IsDelivered req w (hand_on svc req at v)
  unfolding hand_on
  hand_on-IsDelivered req w v at kept =
      made_or_not req w v at (row_of svc.lib req.event at) refl kept

  abbrev after_info : IngestRequest V → ProjectOptions → Bytes × Bytes → IssueInfo → I Bytes
  after_info req opts ips info = in_tables (read_clock svc.env) >>= λ now.
      hand_on svc req (context_of svc req opts ips info now)

  abbrev after_lookup :
      IngestRequest V → ProjectOptions → Bytes × Bytes → Option IssueInfo → I Bytes
  after_lookup req opts ips found = info_or_load svc req found >>= after_info req opts ips

  abbrev after_address : IngestRequest V → ProjectOptions → Bytes × Bytes → I Bytes
  after_address req opts ips = cached_issue svc (cache_key svc req) >>= after_lookup req opts ips

  abbrev after_options : IngestRequest V → ProjectOptions → I Bytes
  after_options req opts = extract_ip svc req.ip >>= after_address req opts

  after_info-IsDelivered :
      (req : IngestRequest V) (opts : ProjectOptions) (ips : Bytes × Bytes) (w : Intake)
      (info : IssueInfo) (v : Intake)
      → Kept w v
      → IsDelivered req w (after_info req opts ips info v)
  after_info-IsDelivered req opts ips w info v kept =
      IsDelivered->>= req w v (in_tables (read_clock svc.env))
        (λ now. hand_on svc req (context_of svc req opts ips info now))
        (in_tables-Keeps (read_clock svc.env)) kept
        (λ now u. hand_on-IsDelivered req w u (context_of svc req opts ips info now))

  after_lookup-IsDelivered :
      (req : IngestRequest V) (opts : ProjectOptions) (ips : Bytes × Bytes) (w : Intake)
      (found : Option IssueInfo) (v : Intake)
      → Kept w v
      → IsDelivered req w (after_lookup req opts ips found v)
  after_lookup-IsDelivered req opts ips w found v kept =
      IsDelivered->>= req w v (info_or_load svc req found) (after_info req opts ips)
        (info_or_load-Keeps req found) kept (after_info-IsDelivered req opts ips w)

  after_address-IsDelivered :
      (req : IngestRequest V) (opts : ProjectOptions) (w : Intake) (ips : Bytes × Bytes)
      (v : Intake)
      → Kept w v
      → IsDelivered req w (after_address req opts ips v)
  after_address-IsDelivered req opts w ips v kept =
      IsDelivered->>= req w v (cached_issue svc (cache_key svc req)) (after_lookup req opts ips)
        (cached_issue-Keeps (cache_key svc req)) kept (after_lookup-IsDelivered req opts ips w)

  after_options-IsDelivered :
      (req : IngestRequest V) (w : Intake) (opts : ProjectOptions) (v : Intake)
      → Kept w v
      → IsDelivered req w (after_options req opts v)
  after_options-IsDelivered req w opts v kept =
      IsDelivered->>= req w v (extract_ip svc req.ip) (after_address req opts)
        (extract_ip-Keeps req.ip) kept (after_address-IsDelivered req opts w)

  -- Whatever fails, a call of `IngestEvent` ends with an error and hands on no row, or it returns
  -- the id of the one row that it hands on, to the queue or to the analytics store, and this row is
  -- made of the event.
  pub ingest_event-IsDelivered :
      (req : IngestRequest V) (w : Intake) → IsDelivered req w (ingest_event svc req w)
  unfolding ingest_event
  ingest_event-IsDelivered req w =
      IsDelivered->>= req w w (get_project_options svc req) (after_options req)
        (get_project_options-Keeps req) (refl, refl) (after_options-IsDelivered req w)
