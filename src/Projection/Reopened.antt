-- ===== src/Projection/Reopened.antt =====
-- What becomes of a closed occurrence when backend/app/projections/rebuild.py replays the reading that
-- opened it.
use kosmohack_final.Projection.Links.{
  IsLinked, any-new_id, not_found, length_decided, any→find, any_decided, any-last, any-update_id,
  any-append_left, any_id-last, length-update, All-decided, decided-All,
}
use kosmohack_final.Projection.Frame.{as_decided, analyse-IsKept}
use kosmohack_final.Quality.Records.{Defect, ObservationValue}
use kosmohack_final.Projection.Defects.{
  reading_of, new_nonconformance, new_occurrence, find_open, record_defect,
}
use kosmohack_final.Projection.Replay.{Values}
use kosmohack_final.Quality.BirthWindow.{EvidenceValue}
use kosmohack_final.Models.Quality.{DefectOccurrence, Nonconformance}
use kosmohack_final.Projection.{Tables, Environment}
use kosmohack_final.Prelude.{
  length-append, subst, All-append, sym, ◌∙◌, opt_eq_refl, ==_refl, update, ◌++◌, All-map, or_opt,
  Text, Option, ap, refl, suc, [], map, length, arith, true, ◌∷◌, ◌≡◌, ◌==◌, find, any, ℕ, List,
  All, some, none,
}
use kosmohack_final.Nonconformance.Release.{as_closed}

-- The closing of the occurrence with the identity, as the release of its nonconformance does it.
abbrev pub closing : ℕ → ℕ → Tables → Tables
closing now id db = record db {
  occurrences = update (λ o. o.id == id) (as_closed now) db.occurrences;
}

module _ (env : Environment) (item_id : Text) (v : Values) (limitations : List EvidenceValue)
    (obs : ObservationValue) (defect : Defect) where
  abbrev recorded : Tables → Tables
  recorded = record_defect env item_id v limitations obs defect

  abbrev component : Option Text
  component = or_opt defect.component_instance_id obs.component_instance_id

  -- The occurrence and the nonconformance that a reading opens.
  abbrev opening : Tables → DefectOccurrence
  opening db = new_occurrence env item_id obs defect.defect_type component db.occurrences

  abbrev opened_ncr : Tables → Nonconformance
  opened_ncr db =
      new_nonconformance (opening db).id item_id obs defect.defect_type component db.nonconformances

  abbrev open_in : List DefectOccurrence → Option DefectOccurrence
  open_in = find_open item_id defect.defect_type component

  recorded_new :
      (db : Tables)
      → IsLinked db
      → open_in db.occurrences ≡ none
      → ((recorded db).occurrences ≡ db.occurrences ++ opening db ∷ [])
        × (map as_decided (recorded db).nonconformances
            ≡ map as_decided (db.nonconformances ++ opened_ncr db ∷ []))
  unfolding record_defect
  recorded_new db linked none_open =
      let o = opening db in
      let unused = not_found o.id db.nonconformances (
        All-map _ _ db.nonconformances (λ n h. any-new_id db.occurrences n.occurrence_id h)
          linked) in
      let linked_db = record db { occurrences = db.occurrences ++ o ∷ [] } in
      let opened = record linked_db {
        nonconformances = db.nonconformances ++ opened_ncr db ∷ [];
      } in
      let (_, _, occurrences, rows) =
        analyse-IsKept obs.trust_status (opened_ncr db) obs
          (reading_of obs defect.defect_type component) v limitations opened in
      rw (none_open, unused) (occurrences, rows)

  abbrev relinked : ℕ → List DefectOccurrence → List DefectOccurrence
  relinked id =
      update (λ o. o.id == id) (λ o. record o { current_observation_id = env.uuid5 obs.event_id })

  recorded_known :
      (db : Tables) (o : DefectOccurrence) (n : Nonconformance)
      → open_in db.occurrences ≡ some o
      → find (λ n. n.occurrence_id == o.id) db.nonconformances ≡ some n
      → ((recorded db).occurrences ≡ relinked o.id db.occurrences)
        × (map as_decided (recorded db).nonconformances ≡ map as_decided db.nonconformances)
  unfolding record_defect
  recorded_known db o n found has =
      let linked = record db { occurrences = relinked o.id db.occurrences } in
      let (_, _, occurrences, rows) =
        analyse-IsKept obs.trust_status n obs (reading_of obs defect.defect_type component) v
          limitations linked in
      rw (found, has) (occurrences, rows)

  open_new :
      (rows : List DefectOccurrence) (db : Tables)
      → open_in rows ≡ none
      → open_in (rows ++ opening db ∷ []) ≡ some (opening db)
  open_new [] db h =
      ground (arith, ==_refl item_id, ==_refl defect.defect_type, opt_eq_refl component)
  open_new (x ∷ rows) db h = ground (arith, open_new rows db)

  none_closed :
      (now : ℕ) (rows : List DefectOccurrence) (db : Tables)
      → open_in rows ≡ none
      → open_in (
          update
            (λ o. o.id == (opening db).id)
            (as_closed now)
            (relinked (opening db).id (rows ++ opening db ∷ [])))
        ≡ none
  none_closed now [] db h = ground (arith, ==_refl (opening db).id)
  none_closed now (x ∷ rows) db h = ground (arith, none_closed now rows db)

  module _ (db : Tables) (linked : IsLinked db) (none_open : open_in db.occurrences ≡ none) where
    abbrev first : Tables
    first = recorded db

    abbrev again : Tables
    again = recorded first

    found_nonconformance :
        (n : Nonconformance) × (find (λ n. n.occurrence_id == (opening db).id) first.nonconformances
          ≡ some n)
    found_nonconformance =
        let id = (opening db).id in
        any→find (λ n. n.occurrence_id == id) first.nonconformances
          (sym (any_decided id first.nonconformances)
            ∙ (ap (any (λ n. n.occurrence_id == id)) (recorded_new db linked none_open).1
                ∙ (any_decided id (db.nonconformances ++ opened_ncr db ∷ [])
                    ∙ any-last id db.nonconformances (opened_ncr db) refl)))

    replayed :
        (again.occurrences ≡ relinked (opening db).id (db.occurrences ++ opening db ∷ []))
        × (map as_decided again.nonconformances
            ≡ map as_decided (db.nonconformances ++ opened_ncr db ∷ []))
    replayed =
        let (occurrences, rows) = recorded_new db linked none_open in
        let (n, has) = found_nonconformance in
        let (occurrences', rows') =
          recorded_known first (opening db) n
            (ap open_in occurrences ∙ open_new db.occurrences db none_open) has in
        (occurrences' ∙ ap (relinked (opening db).id) occurrences, rows' ∙ rows)

    abbrev again_closed : ℕ → Tables
    again_closed now = closing now (opening db).id again

    none_open_then : (now : ℕ) → open_in (again_closed now).occurrences ≡ none
    none_open_then now =
        ap (λ l. open_in (update (λ o. o.id == (opening db).id) (as_closed now) l)) (replayed.0)
        ∙ none_closed now db.occurrences db none_open

    IsLinked-then : (now : ℕ) → IsLinked (again_closed now)
    IsLinked-then now =
        let o = opening db in
        let HasRow : List DefectOccurrence → ℕ → Type 0 =
          λ rows k. any (λ x. x.id == k) rows ≡ true in
        let start = db.occurrences ++ o ∷ [] in
        let before : All (λ n. HasRow start n.occurrence_id)
            (db.nonconformances ++ opened_ncr db ∷ []) =
          All-append (λ n. HasRow start n.occurrence_id) db.nonconformances (opened_ncr db ∷ [])
            (All-map _ _ db.nonconformances
              (λ n h. any-append_left (λ x. x.id == n.occurrence_id) db.occurrences (o ∷ []) h)
              linked)
            (any_id-last o.id db.occurrences o refl, tt) in
        let kept : (k : ℕ) → HasRow start k → HasRow (again_closed now).occurrences k = λ k h.
          ap (λ l. any (λ x. x.id == k) (update (λ x. x.id == o.id) (as_closed now) l)) replayed.0
          ∙ (any-update_id o.id k (as_closed now) (relinked o.id start) (λ x. refl)
              ∙ (any-update_id o.id k
                    (λ x. record x { current_observation_id = env.uuid5 obs.event_id }) start
                    (λ x. refl)
                  ∙ h)) in
        decided-All (HasRow (again_closed now).occurrences) again.nonconformances (
          subst (All (λ n. HasRow (again_closed now).occurrences n.occurrence_id)) (sym replayed.1)
            (All-decided (HasRow (again_closed now).occurrences) _ (
              All-map _ _ (db.nonconformances ++ opened_ncr db ∷ []) (λ n. kept n.occurrence_id)
                before)))

    -- A reading that opens an occurrence adds nothing when it is replayed while the occurrence is open.
    -- Once the occurrence has been closed, the next replay of the same reading adds an occurrence
    -- and a nonconformance again.
    pub closed_reopens :
        (now : ℕ)
        → let last = recorded (again_closed now) in
          (length first.occurrences ≡ suc (length db.occurrences))
          × (length first.nonconformances ≡ suc (length db.nonconformances))
          × (length again.occurrences ≡ length first.occurrences)
          × (length again.nonconformances ≡ length first.nonconformances)
          × (length last.occurrences ≡ suc (length again.occurrences))
          × (length last.nonconformances ≡ suc (length again.nonconformances))
    closed_reopens now =
        let (os, ns) = recorded_new db linked none_open in
        let (os', ns') = replayed in
        let (os'', ns'') =
          recorded_new (again_closed now) (IsLinked-then now) (none_open_then now) in
        let more_ncr = length_decided _ _ ns in
        let same_ncr = length_decided _ _ ns' in
        let last_ncr = length_decided _ _ ns'' in
        let grown = length-append db.occurrences (opening db ∷ []) in
        let grown_ncr = length-append db.nonconformances (opened_ncr db ∷ []) in
        let grown' =
          length-append (again_closed now).occurrences (opening (again_closed now) ∷ []) in
        let grown_ncr' = length-append again.nonconformances (opened_ncr (again_closed now) ∷ []) in
        let relink =
          length-update (λ o. o.id == (opening db).id)
            (λ o. record o { current_observation_id = env.uuid5 obs.event_id })
            (db.occurrences ++ opening db ∷ []) in
        let close =
          length-update (λ o. o.id == (opening db).id) (as_closed now) again.occurrences in
        (
          omega (arith, ap length os, grown),
          omega (arith, more_ncr, grown_ncr),
          omega (arith, ap length os', ap length os, relink),
          omega (arith, same_ncr, more_ncr),
          omega (arith, ap length os'', grown', close),
          omega (arith, last_ncr, grown_ncr'),
        )
