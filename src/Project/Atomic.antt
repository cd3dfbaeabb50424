-- ===== src/Project/Atomic.antt =====
-- What the units of work of `DeleteMessage` and `CreateMessage` leave in the tables.
use warnly.Base.{
  ℕ, ◌+◌, ◌≡◌, refl, sym, ap, subst, ◌∙◌, Bool, true, false, not, ◌&&◌, ◌⊎◌, inl, inr, none, List,
  [], ◌∷◌, ◌++◌, ◌==◌, filter, find?, ok, err, Result, and_then, Bool-cases, arith,
}
use warnly.Db.Tables.{Db, Message, Mention, DbError, statement_failed, exec, read_clock}
use warnly.Db.Board.{insert_message, remove_message, insert_mentions, remove_mentions}
use warnly.Db.UnitOfWork.{Work, in_transaction, through_pool, replay, end_unit, start_unit}
use warnly.Project.Types.{ProjectService, from_store}
use warnly.Project.Projects.{get_user_project, list_teammates}
use warnly.Project.Threads.{
  DeleteMessageRequest, delete_work, delete_message, CreateMessageRequest, new_message,
  new_mentions, create_work, sort, compact, mentions_of,
}
use warnly.Project.Reads.{
  counted, reads_then, then_reads, from_store-state, Reads-get_user_project, Reads-list_teammates,
  Reads-discussion_of,
}

-- The message with its mentions is there as before, or it and they are gone.
abbrev pub IsDeletedOrKept : DeleteMessageRequest → Db → Db → Type 0
IsDeletedOrKept req db db' =
    ((db'.messages ≡ db.messages) × (db'.mentions ≡ db.mentions))
    ⊎ ((db'.messages
          ≡ filter (λ m. not (m.id == req.message_id && m.user_id == req.user_id)) db.messages)
        × (db'.mentions ≡ filter (λ m. not (m.message_id == req.message_id)) db.mentions))

module _ (svc : ProjectService) (req : DeleteMessageRequest) where
  start_unit-delete_work :
      (db : Db) → IsDeletedOrKept req db (start_unit svc.env (delete_work svc req) db).1
  unfolding start_unit delete_work in_transaction end_unit replay remove_message remove_mentions
  start_unit-delete_work db = elim (Bool-cases (svc.env.fails db.statements)) [
    | inl fails ↦ inl (rw (fails, start_unit) (refl, refl))
    | inr begun ↦ elim (Bool-cases (svc.env.fails (db.statements + 1))) [
      | inl fails ↦ inl (rw (begun, fails, start_unit, delete_work, in_transaction) (refl, refl))
      | inr one ↦ elim (Bool-cases (svc.env.fails (db.statements + 1 + 1))) [
        | inl fails ↦
            inl (rw (begun, one, fails, start_unit, delete_work, in_transaction) (refl, refl))
        | inr two ↦ elim (Bool-cases (svc.env.fails (db.statements + 1 + 1 + 1))) [
          | inl fails ↦
              inl
                (rw (begun, one, two, fails, start_unit, delete_work, in_transaction) (refl, refl))
          | inr three ↦
              inr
                (rw (begun, one, two, three, start_unit, delete_work, in_transaction) (refl, refl))
        ]
      ]
    ]
  ]

  -- Whatever statements fail, and also where the request is refused, the tables of messages and of
  -- mentions are both as they were, or both without the user's message of that number and without
  -- all mentions of that number.
  pub delete_message_atomic : (db : Db) → IsDeletedOrKept req db (delete_message svc req db).1
  unfolding delete_message
  delete_message_atomic db =
      reads_then (IsDeletedOrKept req db) (get_user_project svc req.project_id req.user_id) _ db
        (Reads-get_user_project svc req.project_id req.user_id) (λ n r. inl (refl, refl))
        (λ project n r _.
          reads_then (IsDeletedOrKept req db) (list_teammates svc req.user_id) _ (counted n r db)
            (Reads-list_teammates svc req.user_id) (λ n r. inl (refl, refl))
            (λ teammates n r _.
              then_reads (IsDeletedOrKept req db)
                (from_store (start_unit svc.env (delete_work svc req))) _ (counted n r db)
                (λ d n r q. q) (λ _. Reads-discussion_of svc project.id req.issue_id teammates)
                (from_store-state (IsDeletedOrKept req db)
                  (start_unit svc.env (delete_work svc req)) (counted n r db)
                  (start_unit-delete_work (counted n r db)))))

filter-none :
    (p : Message → Bool) (xs : List Message) → find? p xs ≡ none → filter (λ m. not (p m)) xs ≡ xs
filter-none p [] h = refl
filter-none p (x ∷ xs) h = ground (arith, filter-none p xs)

module _ (svc : ProjectService) (runs : (n : ℕ) → svc.env.fails n ≡ false) where
  -- Where no statement fails and no message of that number is the user's, the unit of work of
  -- `DeleteMessage` ends well and keeps every message, but the mentions of that number are gone.
  pub delete_work_stranger :
      (req : DeleteMessageRequest) (db : Db)
      → find? (λ (m : Message). m.id == req.message_id && m.user_id == req.user_id) db.messages
        ≡ none
      → let r = start_unit svc.env (delete_work svc req) db in
        (r.0 ≡ ok tt)
        × (r.1.messages ≡ db.messages)
        × (r.1.mentions ≡ filter (λ m. not (m.message_id == req.message_id)) db.mentions)
  unfolding start_unit delete_work in_transaction end_unit replay remove_message remove_mentions
  delete_work_stranger req db h =
      rw
        (
          runs db.statements,
          runs (db.statements + 1),
          runs (db.statements + 1 + 1),
          runs (db.statements + 1 + 1 + 1),
          start_unit,
          delete_work,
          in_transaction,
        )
        (
          refl,
          filter-none (λ (m : Message). m.id == req.message_id && m.user_id == req.user_id)
              db.messages h,
          refl,
        )

-- The number that the message is given, and the message.
abbrev pub message_of : CreateMessageRequest → ℕ → ℕ → Message
message_of req id now = record {
  id = id;
  issue_id = req.issue_id;
  user_id = req.user_id;
  content = req.content;
  created_at = now;
}

module _ (svc : ProjectService) (req : CreateMessageRequest) where
  -- The mentions that the request stands for, at the time at which the clock is read.
  abbrev pub new_rows : Db → List Mention
  unfolding mentions_of
  new_rows db =
      mentions_of db.next_id (svc.env.clock db.readings) (compact (sort req.mentioned_users))

  -- The work after the message, and after its mentions.
  message_sent : ℕ → Work → Work
  unfolding insert_message
  message_sent now w = record {
    db = record w.db { statements = w.db.statements + 1; next_id = w.db.next_id + 1 };
    pending = w.pending ++ insert_message (message_of req w.db.next_id now) ∷ [];
  }

  mentions_sent : List ℕ → ℕ → ℕ → Work → Work
  unfolding insert_mentions mentions_of
  mentions_sent users now id w = record {
    db =
        insert_mentions (mentions_of id now users)
          (record w.db { statements = w.db.statements + 1 });
    pending = w.pending;
  }

  clock_read : Work → Work
  clock_read w = record w { db = record w.db { readings = w.db.readings + 1 } }

  new_message-runs :
      (now : ℕ) (w : Work)
      → svc.env.fails w.db.statements ≡ false
      → new_message svc req now w ≡ (ok w.db.next_id, message_sent now w)
  unfolding new_message in_transaction message_sent
  new_message-runs now w runs = rw (runs, new_message, in_transaction) refl

  new_mentions-runs :
      (n : ℕ) (ns : List ℕ) (now id : ℕ) (w : Work)
      → svc.env.fails w.db.statements ≡ false
      → new_mentions svc (n ∷ ns) now id w ≡ (ok tt, mentions_sent (n ∷ ns) now id w)
  unfolding new_mentions through_pool exec mentions_sent
  new_mentions-runs n ns now id w runs = rw (runs, new_mentions, through_pool, exec) refl

  create_work-runs :
      (n : ℕ) (ns : List ℕ) (w : Work)
      → compact (sort req.mentioned_users) ≡ n ∷ ns
      → svc.env.fails w.db.statements ≡ false
      → svc.env.fails (w.db.statements + 1) ≡ false
      → create_work svc req w ≡ (
        ok tt,
        mentions_sent
            (n ∷ ns)
            (svc.env.clock w.db.readings)
            w.db.next_id
            (message_sent (svc.env.clock w.db.readings) (clock_read w)),
      )
  unfolding create_work through_pool read_clock clock_read
  create_work-runs n ns w mentioned one two =
      ap
        (λ r. and_then r (λ message_id.
          new_mentions svc (compact (sort req.mentioned_users)) (svc.env.clock w.db.readings)
            message_id))
        (new_message-runs (svc.env.clock w.db.readings) (clock_read w) one)
      ∙ ap
          (λ users.
            new_mentions svc users (svc.env.clock w.db.readings) w.db.next_id
              (message_sent (svc.env.clock w.db.readings) (clock_read w)))
          mentioned
      ∙ unfold message_sent in
        (new_mentions-runs n ns (svc.env.clock w.db.readings) w.db.next_id _ two)

  end_unit-fails :
      (w : Work)
      → svc.env.fails w.db.statements ≡ true
      → end_unit svc.env {A = Unit {0}} (ok tt, w)
        ≡ (err statement_failed, record w.db { statements = w.db.statements + 1 })
  unfolding end_unit
  end_unit-fails w fails = rw (fails, end_unit) refl

  start-begun :
      (db : Db)
      → svc.env.fails db.statements ≡ false
      → start_unit svc.env (create_work svc req) db
        ≡ end_unit svc.env (
            create_work svc req
              (record { db = record db { statements = db.statements + 1 }; pending = [] }))
  unfolding start_unit
  start-begun db begun = rw (begun, start_unit) refl

  -- Where only the commit fails, the unit of work of `CreateMessage` ends with an error and stores
  -- no message, but the mentions of the message that is not there stay.
  pub create_work_orphans :
      (db : Db) (n : ℕ) (ns : List ℕ)
      → compact (sort req.mentioned_users) ≡ n ∷ ns
      → svc.env.fails db.statements ≡ false
      → svc.env.fails (db.statements + 1) ≡ false
      → svc.env.fails (db.statements + 1 + 1) ≡ false
      → svc.env.fails (db.statements + 1 + 1 + 1) ≡ true
      → let r = start_unit svc.env (create_work svc req) db in
        (r.0 ≡ err statement_failed)
        × (r.1.messages ≡ db.messages)
        × (r.1.mentions ≡ db.mentions ++ new_rows db)
  unfolding insert_mentions mentions_sent message_sent clock_read new_rows
  create_work_orphans db n ns mentioned begun one two fails =
      subst
        (λ (r : Result DbError (Unit {0}) × Db).
          (r.0 ≡ err statement_failed)
          × (r.1.messages ≡ db.messages)
          × (r.1.mentions ≡ db.mentions ++ new_rows db))
        (sym (
          start-begun db begun
          ∙ ap (end_unit svc.env) (create_work-runs n ns _ mentioned one two)
          ∙ end_unit-fails _ fails))
        (
          refl,
          refl,
          ap (λ users. db.mentions ++ mentions_of db.next_id (svc.env.clock db.readings) users)
              (sym mentioned),
        )
