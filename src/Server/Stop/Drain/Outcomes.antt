-- ===== src/Server/Stop/Drain/Outcomes.antt =====
-- What a step of the batch worker of internal/storage/log_writer.go does, whatever the table answers.
use sugi.Base.{
  ◌≡◌, refl, sym, ◌∙◌, Bool, Bool-cases, true, false, inl, inr, Option, none, some, List, [], ◌∷◌,
  ◌++◌, append-nil, arith, length, leb, ◌==◌,
}
use sugi.Base.Int.{pos_part}
use sugi.Model.Time.{zero_time}
use sugi.Model.Log.{LogEntry}
use sugi.Storage.Writer.{AsyncLogWriter, flush, append}
use sugi.Storage.Sqlite.{Engine, Codec, DbError, write_batch}
use sugi.Storage.Stored.{Wrote, done, written, failed}

flush-nothing :
    (w : AsyncLogWriter) → (length w.batch == 0) ≡ true → (flush true w).writes ≡ w.writes
unfolding flush
flush-nothing w h = rw h refl

flush-writes :
    (w : AsyncLogWriter) (ok : Bool)
    → (length w.batch == 0) ≡ false
    → (flush ok w).writes ≡ w.writes ++ (w.batch, ok) ∷ []
unfolding flush
flush-writes w ok h = rw h refl

module _ (e : Engine) (c : Codec) where
  -- Whatever the table answers, it answers.
  answer :
      {db : e.Db} (batch : List LogEntry) (r : Option DbError × e.Db)
      → write_batch e c batch (λ i. zero_time) db ≡ r
      → (ok : Bool) × (db' : e.Db) × Wrote e c db ((batch, ok) ∷ []) db'
  answer batch (none, db') h = (true, db', written batch (λ i. zero_time) h (done db'))
  answer batch (some error, db') h = (false, db', failed batch (λ i. zero_time) error h (done db'))

  -- A step of the writer with one outcome of `WriteBatch`, and what it makes of the table.
  abbrev pub Answered : e.Db → AsyncLogWriter → (Bool → AsyncLogWriter) → Type 0
  Answered db w step =
      (ok : Bool) × (db' : e.Db) × (new : List (List LogEntry × Bool)) × ((step ok).writes
        ≡ w.writes ++ new)
      × Wrote e c db new db'

  pub flush-Answered : (db : e.Db) (w : AsyncLogWriter) → Answered db w (λ ok. flush ok w)
  flush-Answered db w = elim (Bool-cases (length w.batch == 0)) [
    | inl nothing ↦ (true, db, [], flush-nothing w nothing ∙ sym (append-nil w.writes), done db)
    | inr some_left ↦
        (let (ok, db', wrote) = answer w.batch (write_batch e c w.batch (λ i. zero_time) db) refl in
          (ok, db', (w.batch, ok) ∷ [], flush-writes w ok some_left, wrote))
  ]

  pub append-Answered :
      (db : e.Db) (w : AsyncLogWriter) (entry : LogEntry) → Answered db w (λ ok. append ok entry w)
  unfolding append
  append-Answered db w entry =
      let w' = record w { batch = w.batch ++ entry ∷ [] } in
      elim (Bool-cases (leb (pos_part w.cfg.batch_size) (length w'.batch))) [
        | inl full ↦ rw full (flush-Answered db w')
        | inr room ↦ rw room (true, db, [], sym (append-nil w.writes), done db)
      ]

-- What a step of the batch worker does not change.
pub record Same (w w' : AsyncLogWriter) : Type 0 where
  pub same_closed : w'.closed ≡ w.closed
  pub same_done : w'.done ≡ w.done
  pub same_entering : w'.entering ≡ w.entering

pub flush-Same : (ok : Bool) (w : AsyncLogWriter) → Same w (flush ok w)
unfolding flush
flush-Same ok w = ground arith

pub append-Same : (ok : Bool) (entry : LogEntry) (w : AsyncLogWriter) → Same w (append ok entry w)
unfolding append flush
append-Same ok entry w = ground arith

pub append-state :
    (ok : Bool) (entry : LogEntry) (w : AsyncLogWriter)
    → ((append ok entry w).worker ≡ w.worker) × ((append ok entry w).ch ≡ w.ch)
unfolding append flush
append-state ok entry w = ground arith
