-- ===== src/Scripts/Normalize/Outcome.antt =====
-- The exit code of a3m/client/clientScripts/normalize.py, and what it has added by then.
use a3m.Common.{
  String, ◌≡◌, refl, Bool, true, false, ◌==◌, ◌⊎◌, inl, inr, Option, none, some, List, [], ◌∷◌,
  if◌then◌else◌, Bool-cases, ok, ok-injective, bind_ok,
}
use mathlib.Core.Path.{subst}
use a3m.Common.Dict.{Dict}
use a3m.Common.Int.{ℤ, pos, is_nonzero}
use a3m.Helpers.Database.{FileRow, new_uuid}
use a3m.Scripts.Normalize.Execution.{
  Command, Details, Executor, no_executor, executor, World, Ran, init, run,
}
use a3m.Scripts.Normalize.Manual.{Options, find_file, check_manual_normalization}
use a3m.Scripts.Normalize.{
  Surroundings, insert_derivation_event, register_all, register_output, once_normalized,
  execute_top, normalized, apply_rules, with_location, unless_manual, is_documentation,
  unless_skipped, of_row, main, description_of, transcoded_files, get_replacement_dict,
}
use a3m.Scripts.Normalize.Listed.{IsListed, check_manual_normalization-IsListed}
use a3m.Scripts.Normalize.Derived.{
  Adds, run-db, register_all-Adds, insert_derivation_event-OneDerivation,
}

-- `SUCCESS`, `RULE_FAILED` and `NO_RULE_FOUND`
abbrev pub IsCode : ℤ → Type 0
IsCode code = (code ≡ pos 0) ⊎ ((code ≡ pos 1) ⊎ (code ≡ pos 2))

-- A call ended with one of the codes, and added at most one file and one derivation.
abbrev pub Ends : Options → World → ℤ × World → Type 0
Ends opts world result = IsCode result.0 × Adds opts world.db result.1.db

module _ (around : Surroundings) where
  register_output-Adds :
      (details : Details) (location : String) (opts : Options) (id detail : String)
      (files : Option (List String)) (world : World) (result : ℤ × World)
      → register_output around details location opts id detail files world ≡ ok result
      → Adds opts world.db result.1.db
  unfolding register_output
  register_output-Adds details location opts id detail none world result e =
      subst (λ (r : ℤ × World). Adds opts world.db r.1.db) (ok-injective e) (inl (refl, refl))
  register_output-Adds details location opts id detail (some files) world result e =
      let (done_, q, e1) = bind_ok (register_all around details opts id detail files world) _ e in
      subst (λ (r : ℤ × World). Adds opts world.db r.1.db) (ok-injective e1)
        (register_all-Adds around details opts id detail files world done_ q)

  once_normalized-Adds :
      (details : Details) (location : String) (event_std_out : Option String) (opts : Options)
      (world : World) (result : ℤ × World)
      → once_normalized around details location event_std_out opts world ≡ ok result
      → Adds opts world.db result.1.db
  unfolding once_normalized new_uuid
  once_normalized-Adds details location event_std_out opts world result e =
      register_output-Adds details location opts _ _ (transcoded_files around location world.files)
        (record world { db = (new_uuid around.storage world.db).1 }) result e

  execute_top-Adds :
      (variables : Dict String) (command : Executor) (opts : Options) (world : World)
      (result : ℤ × World)
      → execute_top around variables command opts world ≡ ok result
      → Adds opts world.db result.1.db
  unfolding execute_top
  execute_top-Adds variables no_executor opts world result e =
      subst (λ (r : ℤ × World). Adds opts world.db r.1.db) (ok-injective e) (inl (refl, refl))
  execute_top-Adds variables (executor details location verification event_detail) opts world result
        e =
      let command = executor details location verification event_detail in
      let (ran, q, e1) = bind_ok (run around.shell variables command world) _ e in
      subst (λ d. Adds opts d result.1.db) (run-db around.shell variables command world ran q)
        (ended (is_nonzero ran.0.exit_code) ran e1)
    where
      ended :
          (b : Bool) (ran : Ran × World)
          → (if b
              then ok (ran.0.exit_code, ran.1)
              else once_normalized around details location ran.0.event_std_out opts ran.1)
            ≡ ok result
          → Adds opts ran.1.db result.1.db
      ended true ran p =
          subst (λ (r : ℤ × World). Adds opts ran.1.db r.1.db) (ok-injective p) (inl (refl, refl))
      ended false ran p =
          once_normalized-Adds details location ran.0.event_std_out opts ran.1 result p

  normalized-Ends :
      (description path : String) (opts : Options) (world : World) (executed : ℤ × World)
      → Adds opts world.db executed.1.db
      → Ends opts world (normalized around description path executed)
  normalized-Ends description path opts world (exitstatus, after) h =
      elim (Bool-cases (is_nonzero exitstatus)) [
        | inl q ↦ rw q (inr (inl refl), h)
        | inr q ↦ rw q (inl refl, h)
      ]

  apply_rules-Ends :
      (path : String) (opts : Options) (rules : List Command) (world : World) (result : ℤ × World)
      → apply_rules around path opts rules world ≡ ok result
      → Ends opts world result
  unfolding apply_rules
  apply_rules-Ends path opts [] world result e =
      subst (Ends opts world) (ok-injective e) (inr (inr refl), inl (refl, refl))
  apply_rules-Ends path opts (command ∷ rules) world result e =
      let (variables, _, e1) = bind_ok (get_replacement_dict around opts) _ e in
      let made = init command variables in
      let (executed, q, e2) = bind_ok (execute_top around made.1 made.0 opts world) _ e1 in
      subst (Ends opts world) (ok-injective e2) (
        normalized-Ends (description_of around made.0) (around.os.basename opts.file_path) opts
          world executed (execute_top-Adds made.1 made.0 opts world executed q))

  with_location-Ends :
      (location : Option String) (opts : Options) (world : World) (result : ℤ × World)
      → with_location around location opts world ≡ ok result
      → Ends opts world result
  unfolding with_location
  with_location-Ends none opts world result e =
      subst (Ends opts world) (ok-injective e) (inr (inr refl), inl (refl, refl))
  with_location-Ends (some location) opts world result e = elim (Bool-cases (location == "")) [
    | inl q ↦ subst (Ends opts world) (ok-injective (rw q at e)) (inr (inr refl), inl (refl, refl))
    | inr q ↦
        let (rules, _, e1) = bind_ok (around.rules opts.file_uuid) _ (rw q at e) in
        apply_rules-Ends (around.os.basename location) opts rules world result e1
  ]

  unless_manual-Ends :
      (manual : Option FileRow) (file_ : FileRow) (opts : Options) (world : World)
      (result : ℤ × World)
      → IsListed world.db.files manual
      → unless_manual around manual file_ opts world ≡ ok result
      → Ends opts world result
  unfolding unless_manual new_uuid
  unless_manual-Ends none file_ opts world result listed e =
      with_location-Ends file_.currentlocation opts world result e
  unless_manual-Ends (some manually) file_ opts world result listed e =
      let (id, made) = new_uuid around.storage world.db in
      let (db, q, e1) =
        bind_ok
          (insert_derivation_event around opts.file_uuid manually.uuid id "manual normalization" ""
            made)
          _ e in
      let (kept, one) =
        insert_derivation_event-OneDerivation around opts manually.uuid id "manual normalization" ""
          made db q in
      subst (Ends opts world) (ok-injective e1)
        (inl refl, inr (inl (manually.uuid, listed, kept, one)))

  unless_skipped-Ends :
      (b : Bool) (file_ : FileRow) (opts : Options) (world : World) (result : ℤ × World)
      → unless_skipped around b file_ opts world ≡ ok result
      → Ends opts world result
  unfolding unless_skipped
  unless_skipped-Ends true file_ opts world result e =
      subst (Ends opts world) (ok-injective e) (inl refl, inl (refl, refl))
  unless_skipped-Ends false file_ opts world result e =
      elim (Bool-cases (file_.filegrpuse == opts.normalize_file_grp_use)) [
        | inl q ↦
            let (manual, found, e1) =
              bind_ok
                (check_manual_normalization around.os around.before around.normalization_csv opts
                  world.db.files world.job)
                _ (rw q at e) in
            unless_manual-Ends manual.0 file_ opts (record world { job = manual.1 }) result
              (check_manual_normalization-IsListed around.os around.before around.normalization_csv
                opts world.db.files world.job manual found)
              e1
        | inr q ↦ subst (Ends opts world) (ok-injective (rw q at e)) (inl refl, inl (refl, refl))
      ]

  of_row-Ends :
      (found : Option FileRow) (opts : Options) (world : World) (result : ℤ × World)
      → of_row around found opts world ≡ ok result
      → Ends opts world result
  unfolding of_row
  of_row-Ends none opts world result e =
      subst (Ends opts world) (ok-injective e) (inr (inr refl), inl (refl, refl))
  of_row-Ends (some file_) opts world result e =
      let (documentation, _, e1) = bind_ok (is_documentation around opts file_) _ e in
      unless_skipped-Ends documentation file_ opts _ result e1

  -- A normalization that does not raise ends with the code 0, 1 or 2. It has added no file and no derivation,
  -- or a derivation of the file to one that was there before, or one file, whose UUID is the task's and new,
  -- with the derivation of the file to it.
  pub main-Ends :
      (opts : Options) (world : World) (result : ℤ × World)
      → main around opts world ≡ ok result
      → Ends opts world result
  unfolding main
  main-Ends opts world result e =
      of_row-Ends (find_file opts.file_uuid world.db.files) opts world result e
