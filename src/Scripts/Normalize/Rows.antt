-- ===== src/Scripts/Normalize/Rows.antt =====
-- What the operations of a3m/databaseFunctions.py and a3m/fileOperations.py that a normalization calls
-- add to the tables.
use a3m.Common.{
  ℕ, String, ◌≡◌, refl, sym, ap, ◌∙◌, Bool, true, false, ◌==◌, inl, inr, Option, some, List, [],
  ◌∷◌, ◌++◌, mem, Bool-cases, ok, raise-ne-ok, ok-injective, bind_ok,
}
use mathlib.Core.Path.{subst}
use a3m.Helpers.Database.{
  FileRow, EventRow, Database, Storage, uuids, create_file, update_files, unit_ids,
  insert_into_files, new_uuid, insert_into_events, create_event, event_uuid, event_ids,
  insert_into_derivations, update_size_and_checksum, add_file_to_sip, get_size_and_checksum,
  digest_event,
}

-- The same files, by their UUIDs, and the same derivations.
abbrev pub SameRows : Database → Database → Type 0
SameRows before after =
    (uuids after.files ≡ uuids before.files) × (after.derivations ≡ before.derivations)

pub SameRows-trans : (a b c : Database) → SameRows a b → SameRows b c → SameRows a c
SameRows-trans a b c p q = (q.0 ∙ p.0, q.1 ∙ p.1)

pub uuids-append : (rows more : List FileRow) → uuids (rows ++ more) ≡ uuids rows ++ uuids more
uuids-append [] more = refl
uuids-append (row ∷ rows) more = ap (λ l. row.uuid ∷ l) (uuids-append rows more)

uuids-update_files :
    (uuid : String) (f : FileRow → FileRow) (rows : List FileRow)
    → ((row : FileRow) → (f row).uuid ≡ row.uuid)
    → uuids (update_files uuid f rows) ≡ uuids rows
unfolding update_files
uuids-update_files uuid f [] h = refl
uuids-update_files uuid f (row ∷ rows) h = elim (Bool-cases (row.uuid == uuid)) [
  | inl q ↦ rw q (
      ap (λ u. u ∷ uuids (update_files uuid f rows)) (h row)
      ∙ ap (λ l. row.uuid ∷ l) (uuids-update_files uuid f rows h))
  | inr q ↦ rw q (ap (λ l. row.uuid ∷ l) (uuids-update_files uuid f rows h))
]

pub create_file-ok :
    (row : FileRow) (db db' : Database)
    → create_file row db ≡ ok db'
    → (mem row.uuid (uuids db.files) ≡ false)
      × (uuids db'.files ≡ uuids db.files ++ row.uuid ∷ [])
      × (db'.derivations ≡ db.derivations)
unfolding create_file
create_file-ok row db db' e = elim (Bool-cases (mem row.uuid (uuids db.files))) [
  | inl q ↦ absurd (raise-ne-ok (rw q at e))
  | inr q ↦
      let same : record db { files = db.files ++ row ∷ [] } ≡ db' = ok-injective (rw q at e) in
      (
        q,
        ap (λ (d : Database). uuids d.files) (sym same) ∙ uuids-append db.files (row ∷ []),
        ap (λ (d : Database). d.derivations) (sym same),
      )
]

module _ (storage : Storage) where
  create_event-SameRows :
      (row : EventRow) (db db' : Database) → create_event storage row db ≡ ok db' → SameRows db db'
  unfolding create_event
  create_event-SameRows row db db' e =
      elim (Bool-cases (mem row.event_id (event_ids storage db.events))) [
        | inl q ↦ absurd (raise-ne-ok (rw q at e))
        | inr q ↦ subst (SameRows db) (ok-injective (rw q at e)) (refl, refl)
      ]

  event_uuid-SameRows : (id : String) (db : Database) → SameRows db (event_uuid storage id db).1
  unfolding event_uuid new_uuid
  event_uuid-SameRows id db = elim (Bool-cases (id == "")) [
    | inl q ↦ rw q (refl, refl)
    | inr q ↦ rw q (refl, refl)
  ]

  pub insert_into_events-SameRows :
      (file_uuid id event_type date detail outcome note : String) (db db' : Database)
      → insert_into_events storage file_uuid id event_type date detail outcome note db ≡ ok db'
      → SameRows db db'
  unfolding insert_into_events
  insert_into_events-SameRows file_uuid id event_type date detail outcome note db db' e =
      SameRows-trans db (event_uuid storage id db).1 db' (event_uuid-SameRows id db)
        (create_event-SameRows _ (event_uuid storage id db).1 db' e)

  pub insert_into_derivations-ok :
      (source derived id : String) (db db' : Database)
      → insert_into_derivations storage source derived id db ≡ ok db'
      → (uuids db'.files ≡ uuids db.files)
        × (db'.derivations
            ≡ db.derivations
              ++ (record { source_file = source; derived_file = derived; event = id }) ∷ [])
  unfolding insert_into_derivations
  insert_into_derivations-ok source derived id db db' e = elim (Bool-cases (source == "")) [
    | inl q ↦ absurd (raise-ne-ok (rw q at e))
    | inr q ↦ elim (Bool-cases (derived == "")) [
      | inl q' ↦ absurd (raise-ne-ok (rw (q, q') at e))
      | inr q' ↦
          subst
            (λ (d : Database).
              (uuids d.files ≡ uuids db.files)
              × (d.derivations
                  ≡ db.derivations
                    ++ (record { source_file = source; derived_file = derived; event = id }) ∷ []))
            (ok-injective (rw (q, q') at e)) (refl, refl)
    ]
  ]

  digest_event-SameRows :
      (b : Bool) (file_uuid date checksum kind : String) (db db' : Database)
      → digest_event storage b file_uuid date checksum kind db ≡ ok db'
      → SameRows db db'
  digest_event-SameRows false file_uuid date checksum kind db db' e =
      subst (SameRows db) (ok-injective e) (refl, refl)
  digest_event-SameRows true file_uuid date checksum kind db db' e =
      insert_into_events-SameRows file_uuid "" _ date _ "" checksum db db' e

  pub update_size_and_checksum-SameRows :
      (file_uuid file_path date id : String) (size : Option ℕ) (checksum kind : String) (b : Bool)
      (db db' : Database)
      → update_size_and_checksum storage file_uuid file_path date id size checksum kind b db
        ≡ ok db'
      → SameRows db db'
  unfolding update_size_and_checksum
  update_size_and_checksum-SameRows file_uuid file_path date id size checksum kind b db db' e =
      let (digest, _, e1) =
        bind_ok (get_size_and_checksum storage file_path size checksum kind) _ e in
      SameRows-trans db
        (record db {
          files = update_files file_uuid (λ row. record row { digest = some digest }) db.files;
        })
        db'
        (
          uuids-update_files file_uuid (λ row. record row { digest = some digest }) db.files
              (λ row. refl),
          refl,
        )
        (digest_event-SameRows b file_uuid date digest.1.0 digest.1.1 _ db' e1)

  pub add_file_to_sip-ok :
      (path file_uuid sip_uuid date source_type use_ : String) (db db' : Database)
      → add_file_to_sip storage path file_uuid sip_uuid date source_type use_ db ≡ ok db'
      → (mem file_uuid (uuids db.files) ≡ false)
        × (uuids db'.files ≡ uuids db.files ++ file_uuid ∷ [])
        × (db'.derivations ≡ db.derivations)
  unfolding add_file_to_sip insert_into_files
  add_file_to_sip-ok path file_uuid sip_uuid date source_type use_ db db' e =
      let (filed, q, e1) =
        bind_ok (insert_into_files file_uuid path date "" sip_uuid use_ "" db) _ e in
      let (ids, _, q1) = bind_ok (unit_ids "" sip_uuid) _ q in
      let (fresh, added, kept) = create_file-ok _ db filed q1 in
      let same = insert_into_events-SameRows file_uuid "" source_type date "" "" "" filed db' e1 in
      (fresh, same.0 ∙ added, same.1 ∙ kept)
