-- ===== src/Projection/Recovery.antt =====
-- The rebuild as one function of the database, and the recovery of projections that are behind.
use kosmohack_final.Quality.Trust.{is_empty}
use kosmohack_final.Events.{Payload}
use kosmohack_final.Models.Log.{ProjectionStatus, RawEvent}
use kosmohack_final.Session.{ok, err, Result, Session}
use kosmohack_final.Projection.Replay.{decrypt_all, raws_of, Values}
use kosmohack_final.Projection.Rebuild.{
  write_rows, unexpected, values_of, ensure_projection, record_all, projected, with_status,
  rebuild_item, write_projection,
}
use kosmohack_final.Projection.{Tables, Environment}
use kosmohack_final.Prelude.{arith, if◌then◌else◌, ◌≡◌, List, Option, Text, ℕ, some, none}

module _ (env : Environment) (now : ℕ) (item_id : Text) where
  abbrev pub begun : Tables → Tables
  begun db =
      write_projection item_id (with_status ProjectionStatus.rebuilding)
        (ensure_projection item_id db)

  abbrev pub finish : Values → List RawEvent → Option Tables → Option Tables
  finish v raws none = none
  finish v raws (some rows) =
      some (write_projection item_id (projected now raws) (record_all env item_id v rows))

  abbrev pub project_events :
      List RawEvent → Tables → Option (List (RawEvent × Payload)) → Option Tables
  project_events raws db none = none
  project_events raws db (some events) =
      let v = values_of env item_id db events in finish v raws (write_rows env item_id v db)

  -- What the rebuild makes of the database; `none` is an exception.
  abbrev pub rebuilt : Tables → Option Tables
  rebuilt db =
      let raws = raws_of item_id (begun db).raw_events in
      if is_empty raws
      then some (write_projection item_id (with_status ProjectionStatus.up_to_date) (begun db))
      else project_events raws (begun db) (decrypt_all env raws)

  abbrev pub session_of : Session Tables → Option Tables → Result (Unit {0}) × Session Tables
  session_of s none = (err unexpected, record s { current = begun s.current })
  session_of s (some db) = (ok tt, record { committed = db; current = db })

  pub rebuild_item-rebuilt :
      (s : Session Tables) → rebuild_item env now item_id s ≡ session_of s (rebuilt s.current)
  unfolding rebuild_item
  rebuild_item-rebuilt s = ground arith
