-- ===== src/Scripts/Names/Batches/Equivalence.antt =====
-- The batches of a3m/client/clientScripts/change_object_names.py against one update of all rows.
use a3m.Common.{
  ℕ, String, ◌≡◌, refl, sym, ap, ◌∙◌, Bool, true, false, ◌==◌, inl, inr, none, some, List, [], ◌∷◌,
  arith, mem, Distinct, Option-cases, Bool-cases, eq-cases,
}
use mathlib.Core.Path.{subst, ap₂}
use mathlib.Core.Option.{some-injective}
use a3m.Common.Text.{replace_first}
use a3m.Common.Dict.{Dict, keys, lookup, insert, update, or_else, lookup-update, lookup-none}
use a3m.Scripts.Names.{Change}
use a3m.Scripts.Names.Batches.{
  Row, NameChanger, normalize_path_for_db, moved_row, update_row, update_rows, apply_file_updates,
  apply_directories, apply_dir_updates, flush_files, flush_dirs, index_file, add_file_to_batch,
  add_dir_to_batch, add_change, change_all, change_objects,
}

module _ (nfc : String → String) where
  -- No old or new path of the index is an old path of the changes.
  abbrev IsApart : Dict String → Dict String → Type 0
  IsApart [] changes = Unit
  IsApart ((old, new) ∷ index) changes =
      ((mem old (keys changes) ≡ false) × (mem (nfc new) (keys changes) ≡ false))
      × IsApart index changes

  -- A new path is no old path of a later change, and each old path is changed once.
  abbrev pub IsOrdered : Dict String → Type 0
  IsOrdered [] = Unit
  IsOrdered ((old, new) ∷ changes) =
      ((mem old (keys changes) ≡ false) × (mem (nfc new) (keys changes) ≡ false))
      × IsOrdered changes

  IsOrdered-Distinct : (changes : Dict String) → IsOrdered changes → Distinct (keys changes)
  IsOrdered-Distinct [] h = tt
  IsOrdered-Distinct ((old, new) ∷ changes) h = (h.0.0, IsOrdered-Distinct changes h.1)

  apart-lookup :
      (index changes : Dict String) (k v : String)
      → IsApart index changes
      → lookup k index ≡ some v
      → (mem k (keys changes) ≡ false) × (mem (nfc v) (keys changes) ≡ false)
  unfolding lookup
  apart-lookup [] changes k v h e = ground arith
  apart-lookup ((old, new) ∷ index) changes k v h e = elim (eq-cases old k) [
    | inl (p, q) ↦ (
      subst (λ x. mem x (keys changes) ≡ false) p h.0.0,
      subst (λ x. mem (nfc x) (keys changes) ≡ false) (some-injective new v (rw q at e)) h.0.1,
    )
    | inr (p, q) ↦ apart-lookup index changes k v h.1 (rw q at e)
  ]

  IsApart-insert :
      (old new : String) (index changes : Dict String)
      → IsApart index changes
      → (mem old (keys changes) ≡ false) × (mem (nfc new) (keys changes) ≡ false)
      → IsApart (insert old new index) changes
  unfolding insert
  IsApart-insert old new [] changes h e = (e, tt)
  IsApart-insert old new ((o, n) ∷ index) changes h e = elim (Bool-cases (o == old)) [
    | inl q ↦ rw q ((h.0.0, e.1), h.1)
    | inr q ↦ rw q (h.0, IsApart-insert old new index changes h.1 e)
  ]

  IsApart-tail :
      (index : Dict String) (old new : String) (changes : Dict String)
      → IsApart index ((old, new) ∷ changes)
      → IsApart index changes
  IsApart-tail [] old new changes h = tt
  IsApart-tail ((o, n) ∷ index) old new changes h =
      ((ground (arith, h.0.0), ground (arith, h.0.1)), IsApart-tail index old new changes h.1)

  -- One row, by the index and by the changes after it.
  row_twice :
      (index changes : Dict String) (row : Row)
      → IsApart index changes
      → Distinct (keys changes)
      → update_row nfc (update [] changes) (update_row nfc index row)
        ≡ update_row nfc (update index changes) row
  unfolding update_row lookup
  row_twice index changes row h d =
      let k = nfc row.currentlocation in
      elim (Option-cases (lookup k index)) [
        | inl e ↦
            ap (λ o. update_row nfc (update [] changes) (moved_row nfc o row)) e
            ∙ ap (λ o. moved_row nfc o row)
                (lookup-update [] changes k d
                  ∙ ap (or_else (lookup k changes)) (sym e)
                  ∙ sym (lookup-update index changes k d))
        | inr (v, e) ↦
            let (old_free, new_free) = apart-lookup index changes k v h e in
            ap (λ o. update_row nfc (update [] changes) (moved_row nfc o row)) e
            ∙ ap (λ o. moved_row nfc o (record row { currentlocation = v }))
                (lookup-update [] changes (nfc v) d
                  ∙ ap (λ o. or_else o none) (lookup-none (nfc v) changes new_free))
            ∙ ap (λ o. moved_row nfc o row)
                (sym (
                  lookup-update index changes k d ∙ ap₂ or_else (lookup-none k changes old_free) e))
      ]

  rows_twice :
      (index changes : Dict String) (rows : List Row)
      → IsApart index changes
      → Distinct (keys changes)
      → update_rows nfc (update [] changes) (update_rows nfc index rows)
        ≡ update_rows nfc (update index changes) rows
  unfolding update_rows
  rows_twice index changes [] h d = refl
  rows_twice index changes (row ∷ rows) h d =
      ap₂ (λ a b. a ∷ b) (row_twice index changes row h d) (rows_twice index changes rows h d)

  -- The changes of files with their paths as in the database, the directories left out.
  abbrev pub file_change : Bool → Bool → (old_path new_path : String) → Dict String → Dict String
  file_change true false old_path new_path rest = (old_path, new_path) ∷ rest
  file_change was_changed is_dir old_path new_path rest = rest

  abbrev pub file_changes : (sip_path group_type : String) → List Change → Dict String
  file_changes sip_path group_type [] = []
  file_changes sip_path group_type (change ∷ changes) =
      file_change change.was_changed change.is_dir
        (replace_first (nfc change.old_path) sip_path group_type)
        (replace_first (nfc change.changed_path) sip_path group_type)
        (file_changes sip_path group_type changes)

  -- What the files of a changer are, once the changes are all applied.
  record IsUpdated (sip_path group_type : String) (changes : Dict String) (rows : List Row)
      (changer : NameChanger) : Type 0 where
    same_path : changer.sip_path ≡ sip_path
    same_type : changer.group_type ≡ group_type
    apart : IsApart changer.files_index changes
    to_come : update_rows nfc (update changer.files_index changes) changer.files ≡ rows

  files-apply_directories :
      (b : Bool) (changer : NameChanger) → (apply_directories nfc b changer).files ≡ changer.files
  unfolding apply_directories
  files-apply_directories true changer = refl
  files-apply_directories false changer = refl

  apply_directories-IsUpdated :
      (sip_path group_type : String) (changes : Dict String) (rows : List Row) (b : Bool)
      (changer : NameChanger)
      → IsUpdated sip_path group_type changes rows changer
      → IsUpdated sip_path group_type changes rows (apply_directories nfc b changer)
  unfolding apply_directories
  apply_directories-IsUpdated sip_path group_type changes rows true changer h = record {
    same_path = h.same_path;
    same_type = h.same_type;
    apart = h.apart;
    to_come = h.to_come;
  }
  apply_directories-IsUpdated sip_path group_type changes rows false changer h = h

  flush_dirs-IsUpdated :
      (sip_path group_type : String) (changes : Dict String) (rows : List Row) (b : Bool)
      (changer : NameChanger)
      → IsUpdated sip_path group_type changes rows changer
      → IsUpdated sip_path group_type changes rows (flush_dirs nfc b changer)
  unfolding flush_dirs apply_dir_updates
  flush_dirs-IsUpdated sip_path group_type changes rows true changer h =
      apply_directories-IsUpdated sip_path group_type changes rows changer.has_directories changer h
  flush_dirs-IsUpdated sip_path group_type changes rows false changer h = h

  flush_files-IsUpdated :
      (sip_path group_type : String) (changes : Dict String) (rows : List Row) (b : Bool)
      (changer : NameChanger)
      → Distinct (keys changes)
      → IsUpdated sip_path group_type changes rows changer
      → IsUpdated sip_path group_type changes rows (flush_files nfc b changer)
  unfolding flush_files apply_file_updates
  flush_files-IsUpdated sip_path group_type changes rows true changer d h = record {
    same_path = h.same_path;
    same_type = h.same_type;
    apart = tt;
    to_come = rows_twice changer.files_index changes changer.files h.apart d ∙ h.to_come;
  }
  flush_files-IsUpdated sip_path group_type changes rows false changer d h = h

  add_change-IsUpdated :
      (with_slash : String → String) (batch_size : ℕ) (sip_path group_type : String)
      (was_changed is_dir : Bool) (old_path new_path : String) (changes : Dict String)
      (rows : List Row) (changer : NameChanger)
      → IsOrdered (
          file_change was_changed is_dir
            (replace_first (nfc old_path) sip_path group_type)
            (replace_first (nfc new_path) sip_path group_type)
            changes)
      → IsUpdated sip_path group_type
          (file_change was_changed is_dir
            (replace_first (nfc old_path) sip_path group_type)
            (replace_first (nfc new_path) sip_path group_type)
            changes)
          rows
          changer
      → IsOrdered changes
        × IsUpdated sip_path group_type changes rows
            (add_change nfc with_slash batch_size was_changed is_dir old_path new_path changer)
  unfolding add_change add_file_to_batch add_dir_to_batch index_file normalize_path_for_db update
  add_change-IsUpdated with_slash batch_size sip_path group_type false true old_path new_path
        changes rows changer o h =
      (o, h)
  add_change-IsUpdated with_slash batch_size sip_path group_type false false old_path new_path
        changes rows changer o h =
      (o, h)
  add_change-IsUpdated with_slash batch_size sip_path group_type true true old_path new_path changes
        rows changer o h =
      (
        o,
        flush_dirs-IsUpdated sip_path group_type changes rows _ _ (record {
          same_path = h.same_path;
          same_type = h.same_type;
          apart = h.apart;
          to_come = h.to_come;
        }),
      )
  add_change-IsUpdated with_slash batch_size sip_path group_type true false old_path new_path
        changes rows changer o h =
      let old = replace_first (nfc old_path) sip_path group_type in
      let new = replace_first (nfc new_path) sip_path group_type in
      (
        o.1,
        subst
            (λ (p : String × String).
              IsUpdated sip_path group_type changes rows
                (index_file nfc batch_size p.0 p.1 changer))
            (sym (
              ap₂ (λ a b. (replace_first (nfc old_path) a b, replace_first (nfc new_path) a b))
                h.same_path h.same_type))
            (flush_files-IsUpdated sip_path group_type changes rows _ _
              (IsOrdered-Distinct changes o.1)
              (record {
                same_path = h.same_path;
                same_type = h.same_type;
                apart =
                    IsApart-insert old new changer.files_index changes
                      (IsApart-tail changer.files_index old new changes h.apart) o.0;
                to_come = h.to_come;
              })),
      )

  change_all-IsUpdated :
      (with_slash : String → String) (batch_size : ℕ) (sip_path group_type : String)
      (changes : List Change) (rows : List Row) (changer : NameChanger)
      → IsOrdered (file_changes sip_path group_type changes)
      → IsUpdated sip_path group_type (file_changes sip_path group_type changes) rows changer
      → IsUpdated sip_path group_type [] rows (change_all nfc with_slash batch_size changes changer)
  unfolding change_all
  change_all-IsUpdated with_slash batch_size sip_path group_type [] rows changer o h = h
  change_all-IsUpdated with_slash batch_size sip_path group_type (change ∷ changes) rows changer o
        h =
      let (o', h') =
        add_change-IsUpdated with_slash batch_size sip_path group_type change.was_changed
          change.is_dir change.old_path change.changed_path
          (file_changes sip_path group_type changes) rows changer o h in
      change_all-IsUpdated with_slash batch_size sip_path group_type changes rows _ o' h'

  -- The batches come to one update: whatever the size of a batch, the rows of the files are after
  -- `change_objects` as after one update by all changes of files. Each old path is changed once, and no
  -- new path is the old path of a later change.
  pub change_objects-update_rows :
      (with_slash : String → String) (batch_size : ℕ) (changes : List Change)
      (changer : NameChanger)
      → changer.files_index ≡ []
      → IsOrdered (file_changes changer.sip_path changer.group_type changes)
      → (change_objects nfc with_slash batch_size changes changer).files
        ≡ update_rows nfc
            (update [] (file_changes changer.sip_path changer.group_type changes))
            changer.files
  unfolding change_objects apply_file_updates apply_dir_updates update
  change_objects-update_rows with_slash batch_size changes changer e o =
      let all = file_changes changer.sip_path changer.group_type changes in
      let done_ = change_all nfc with_slash batch_size changes changer in
      let updated : IsUpdated changer.sip_path changer.group_type []
          (update_rows nfc (update [] all) changer.files) done_ =
        change_all-IsUpdated with_slash batch_size changer.sip_path changer.group_type changes
          (update_rows nfc (update [] all) changer.files) changer o
          (record {
            same_path = refl;
            same_type = refl;
            apart = rw e tt;
            to_come = ap (λ i. update_rows nfc (update i all) changer.files) e;
          }) in
      files-apply_directories done_.has_directories (apply_file_updates nfc done_) ∙ updated.to_come
