-- ===== src/Locks/Tests.antt =====
-- The theorems on locks at a concrete table.
use warnly.Base.{◌≡◌, ◌≢◌, refl, true, false, some, List, [], ◌∷◌, text, bytes_eq_iff, arith}
use warnly.Locks.Table.{AlertLock, Locks, acquire}
use warnly.Locks.Rows.{row_of, HasKeys}
use warnly.Locks.Refinement.{locks_of, steps, answers, replies, after_all-steps}
use warnly.Locks.Exclusion.{Op, acquire_op, release_op, cleanup_op, after_all, acquire_excluded}

abbrev held : AlertLock
held = record { locked_at = 100; expires_at = 400; instance_id = text "a"; alert_id = 1 }

abbrev wanted : AlertLock
wanted = record { locked_at = 200; expires_at = 500; instance_id = text "b"; alert_id = 1 }

abbrev table : Locks
table = held ∷ []

table_keys : HasKeys table
unfolding row_of
table_keys = (refl, tt)

table_row : row_of 1 table ≡ some held
unfolding row_of
table_row = refl

abbrev others : List Op
others = acquire_op 150 151 wanted ∷ release_op 1 (text "b") ∷ cleanup_op 160 ∷ []

false-true : false ≡ true → ⊥
false-true h = cc

differs : wanted.instance_id ≢ held.instance_id
differs e = false-true ((bytes_eq_iff wanted.instance_id held.instance_id).1 e)

acquire_excluded_example :
    let (answer, locks') = acquire 200 201 wanted (after_all others table) in
    (answer ≡ some false) × (row_of 1 locks' ≡ some held)
acquire_excluded_example =
    acquire_excluded others table held wanted 200 201 table_keys table_row
      ((omega arith), ((λ e. differs e), ((omega arith), tt))) differs (omega arith) (omega arith)
      (omega arith)

after_all-steps_example :
    (locks_of (after_all others table) ≡ steps others (locks_of table))
    × (answers others table ≡ replies others (locks_of table))
after_all-steps_example = after_all-steps others table table_keys
