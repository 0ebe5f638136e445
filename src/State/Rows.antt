-- ===== src/State/Rows.antt =====
-- The state of a call, and the session's own operations.
use aiplatform.Shared.{ℕ, suc, List, [], ◌∷◌, ◌++◌}
use aiplatform.Exec.{Result, ok, err, Exec}
use aiplatform.Clock.{Datetime, timestamp}
use aiplatform.State.Tables.{with_tool_rows, Db, RedisCommand, StreamItem}
use aiplatform.State.Parameters.{Outside}

-- What a stream has yielded, with the two databases at that moment.
pub record Sent : Type 0 where
  pub item : StreamItem
  pub seen : Db
  pub stored : Db

pub record World : Type 0 where
  pub db : Db
  pub saved : Db
  pub readings : ℕ  -- of the clock
  pub calls : ℕ  -- of agno, or of a poll
  pub redis : List RedisCommand
  pub sent : List Sent

abbrev pub change : (Db → Db) → World → World
change f w = record w { db = f w.db }

-- `session.flush()` after writing rows
abbrev pub write : (Db → Db) → Exec World (Unit {0})
write f w = (ok tt, change f w)

-- `session.commit()`
abbrev pub commit : Exec World (Unit {0})
commit w = (ok tt, record w { saved = w.db })

-- `session.rollback()`
abbrev pub rollback : Exec World (Unit {0})
rollback w = (ok tt, record w { db = w.saved })

abbrev pub send : StreamItem → Exec World (Unit {0})
send i w =
    (ok tt, record w { sent = w.sent ++ (record { item = i; seen = w.db; stored = w.saved }) ∷ [] })

-- `commit` and `send` as functions of the state.
abbrev pub committed : World → World
committed w = (commit w).1

abbrev pub sent_after : StreamItem → World → World
sent_after i w = (send i w).1

-- One more call of agno.
abbrev pub calling : World → World
calling w = record w { calls = suc w.calls }

-- The rows that the tools of a call have written by its k-th event.
abbrev pub after_tools : Outside → ℕ → World → World
after_tools o k w = change (λ d. with_tool_rows (o.tool_rows w.calls k d) d) w

-- `datetime.now(timezone.utc)`
abbrev pub now : Outside → Exec World Datetime
now o w = (ok (o.now w.readings), record w { readings = suc w.readings })

abbrev pub now_seconds : Outside → Exec World ℕ
now_seconds o w = (ok (timestamp (o.now w.readings)), record w { readings = suc w.readings })

abbrev pub redis_write : RedisCommand → Exec World (Unit {0})
redis_write c w = (ok tt, record w { redis = c ∷ w.redis })

-- A new identifier.
abbrev pub fresh_id : Exec World ℕ
fresh_id w = (ok w.db.next_id, change (λ d. record d { next_id = suc d.next_id }) w)

abbrev finish {ℓ} : {A : Type ℓ} → Result A → World → Result A × World
finish (ok a) w = (ok a, record w { saved = w.db })
finish (err e) w = (err e, record w { db = w.saved })

-- `get_db` and `session_scope` round a request: a commit at its end, or a rollback when it raises.
abbrev pub in_session {ℓ} : {A : Type ℓ} → (World → Result A × World) → World → Result A × World
in_session m w = let (r, w') = m w in finish r w'
