-- ===== src/Db/UnitOfWork.antt =====
-- internal/mysql/uow.go: a transaction for the stores that take part in it. Its writes are held
-- back until it commits; a number that `AUTO_INCREMENT` gave is used up either way.
use warnly.Base.{◌+◌, List, [], ◌∷◌, ◌++◌, if◌then◌else◌, Result, ok, err, Action}
use warnly.Db.Tables.{Db, Env, DbError, statement_failed, M}

-- The tables that the pool of connections sees, and what the transaction wrote.
pub record Work : Type 0 where
  pub db : Db
  pub pending : List (Db → Db)

abbrev pub W : Type 0 → Type 0
W A = Action Work DbError A

unfoldable pub replay : List (Db → Db) → Db → Db
replay [] db = db
replay (write ∷ writes) db = replay writes (write db)

-- A call of a store that was not added: it goes to the pool.
abbrev pub beside : {A : Type 0} → Result DbError A × Db → List (Db → Db) → Result DbError A × Work
beside (r, db) pending = (r, record { db = db; pending = pending })

unfoldable pub through_pool : {A : Type 0} → M A → W A
through_pool m w = beside (m w.db) w.pending

module _ (env : Env) where
  -- A statement of a store that was added to the transaction: it gives a value, and writes.
  unfoldable pub in_transaction : {A : Type 0} → (Db → A × Db) → (A → Db → Db) → W A
  in_transaction run write w =
      let d = record w.db { statements = w.db.statements + 1 } in
      if env.fails w.db.statements
      then (err statement_failed, record w { db = d })
      else (ok (run d).0, record { db = (run d).1; pending = w.pending ++ write (run d).0 ∷ [] })

  -- The transaction ends: an error rolls it back, and so does a commit that fails.
  unfoldable pub end_unit : {A : Type 0} → Result DbError A × Work → Result DbError A × Db
  unfolding replay
  end_unit (err e, w) = (err e, w.db)
  end_unit (ok a, w) =
      let d = record w.db { statements = w.db.statements + 1 } in
      if env.fails w.db.statements then (err statement_failed, d) else (ok a, replay w.pending d)

  -- `NewUOW`'s function, called outside of any other unit of work.
  unfoldable pub start_unit : {A : Type 0} → W A → M A
  unfolding end_unit
  start_unit body db =
      let d = record db { statements = db.statements + 1 } in
      if env.fails db.statements
      then (err statement_failed, d)
      else end_unit (body (record { db = d; pending = [] }))
