-- ===== src/Scripts/Normalize/Derived.antt =====
-- What a normalization adds to the tables (a3m/client/clientScripts/normalize.py).
use a3m.Common.{
  String, ◌≡◌, ◌≢◌, refl, sym, ap, ◌∙◌, Bool, true, false, ◌⊎◌, inl, inr, Option, none, some, List,
  [], ◌∷◌, ◌++◌, arith, mem, mem-append, if◌then◌else◌, Bool-cases, Result, ok, raise, raise-ne-ok,
  ok-injective, bind_ok, eq_refl,
}
use mathlib.Core.Path.{subst}
use a3m.Common.Dict.{Dict}
use a3m.Common.Int.{ℤ, is_nonzero}
use a3m.Helpers.Subprocess.{ExecutionResult}
use a3m.Helpers.Database.{
  Database, uuids, new_uuid, insert_into_events, add_file_to_sip, update_size_and_checksum,
}
use a3m.Scripts.Normalize.Execution.{
  Details, Executor, no_executor, executor, World, Ran, Shell, run, after_call, execute_command,
  after_verification, after_event_detail, announce_verification, executor_label, command_of, print,
  print_failure,
}
use a3m.Scripts.Normalize.Manual.{Options}
use a3m.Scripts.Normalize.{
  Surroundings, insert_derivation_event, register_file, register_format, register_all,
}
use a3m.Scripts.Normalize.Rows.{
  SameRows, SameRows-trans, insert_into_events-SameRows, insert_into_derivations-ok,
  update_size_and_checksum-SameRows, add_file_to_sip-ok,
}

module _ (shell : Shell) (variables : Dict String) where
  after_call-db :
      (world : World) (called : Result ExecutionResult × Dict String)
      (executed : ExecutionResult × World)
      → after_call world called ≡ ok executed
      → executed.1.db ≡ world.db
  unfolding after_call
  after_call-db world (raise e, files) executed q = absurd (raise-ne-ok q)
  after_call-db world (ok result, files) executed q =
      ap (λ (x : ExecutionResult × World). x.1.db) (sym (ok-injective q))

  execute_command-db :
      (details : Details) (world : World) (executed : ExecutionResult × World)
      → execute_command shell variables details world ≡ ok executed
      → executed.1.db ≡ world.db
  unfolding execute_command
  execute_command-db details world executed e =
      after_call-db
        (print ("Command stdout:" ∷ []) (
          print ("-----" ∷ [])
            (print ("Command to execute:" ∷ command_of variables details ∷ []) world)))
        _ executed e

  after_verification-db :
      (b : Bool) (verification : Executor) (exit_code : ℤ) (world before : World)
      (called : Result (Ran × World)) (verified : ℤ × World)
      → ((ran : Ran × World) → called ≡ ok ran → ran.1.db ≡ world.db)
      → after_verification b verification exit_code world called ≡ ok verified
      → verified.1.db ≡ world.db
  after_verification-db b no_executor exit_code world before called verified h e =
      ap (λ (x : ℤ × World). x.1.db) (sym (ok-injective e))
  after_verification-db true (executor d l v x) exit_code world before called verified h e =
      ap (λ (x : ℤ × World). x.1.db) (sym (ok-injective e))
  after_verification-db false (executor d l v x) exit_code world before (raise f) verified h e =
      absurd (raise-ne-ok e)
  after_verification-db false (executor d l v x) exit_code world before (ok ran) verified h e =
      ap (λ (x : ℤ × World). x.1.db) (sym (ok-injective e)) ∙ h ran refl

  after_event_detail-db :
      (b : Bool) (event_detail : Executor) (world : World) (called : Result (Ran × World))
      (detailed : Option String × World)
      → ((ran : Ran × World) → called ≡ ok ran → ran.1.db ≡ world.db)
      → after_event_detail b event_detail world called ≡ ok detailed
      → detailed.1.db ≡ world.db
  after_event_detail-db b no_executor world called detailed h e =
      ap (λ (x : Option String × World). x.1.db) (sym (ok-injective e))
  after_event_detail-db true (executor d l v x) world called detailed h e =
      ap (λ (x : Option String × World). x.1.db) (sym (ok-injective e))
  after_event_detail-db false (executor d l v x) world (raise f) detailed h e =
      absurd (raise-ne-ok e)
  after_event_detail-db false (executor d l v x) world (ok ran) detailed h e =
      ap (λ (x : Option String × World). x.1.db) (sym (ok-injective e)) ∙ h ran refl

  print_failure-db :
      (details : Details) (std_out std_err : String) (code : ℤ) (world : World)
      → (print_failure details std_out std_err code world).db ≡ world.db
  print_failure-db details std_out std_err code world = elim (Bool-cases (is_nonzero code)) [
    | inl q ↦ rw q refl
    | inr q ↦ rw q refl
  ]

  -- The commands, their verifications and event details change no table.
  pub run-db :
      (command : Executor) (world : World) (ran : Ran × World)
      → run shell variables command world ≡ ok ran
      → ran.1.db ≡ world.db
  unfolding run
  run-db no_executor world ran e = ap (λ (x : Ran × World). x.1.db) (sym (ok-injective e))
  run-db (executor details location verification event_detail) world ran e =
      let (executed, q, e1) = bind_ok (execute_command shell variables details world) _ e in
      let again =
        run shell variables verification (announce_verification verification executed.1) in
      let (verified, q', e2) =
        bind_ok
          (after_verification (is_nonzero executed.0.0) verification executed.0.0 executed.1 again)
          _ e1 in
      let announced =
        print ("Running event detail command" ∷ executor_label event_detail ∷ []) verified.1 in
      let (detailed, q'', e3) =
        bind_ok
          (after_event_detail (is_nonzero verified.0) event_detail verified.1
            (run shell variables event_detail announced))
          _ e2 in
      ap (λ (x : Ran × World). x.1.db) (sym (ok-injective e3))
      ∙ print_failure-db details executed.0.1.0 executed.0.1.1 verified.0 detailed.1
      ∙ after_event_detail-db (is_nonzero verified.0) event_detail verified.1
          (run shell variables event_detail announced) detailed
          (λ r p. run-db event_detail announced r p) q''
      ∙ after_verification-db (is_nonzero executed.0.0) verification executed.0.0 executed.1 world
          again verified
          (λ r p. run-db verification (announce_verification verification executed.1) r p) q'
      ∙ execute_command-db details world executed q

-- One more derivation, from the file of the job.
abbrev pub OneDerivation : Options → (derived : String) → Database → Database → Type 0
OneDerivation opts derived before after =
    (event : String) × (after.derivations
      ≡ before.derivations
        ++ (record { source_file = opts.file_uuid; derived_file = derived; event = event }) ∷ [])

-- A new file with the UUID of the task, which no file had, and its derivation.
abbrev pub OneFile : Options → Database → Database → Type 0
OneFile opts before after =
    (mem opts.task_uuid (uuids before.files) ≡ false)
    × (uuids after.files ≡ uuids before.files ++ opts.task_uuid ∷ [])
    × OneDerivation opts opts.task_uuid before after

-- What a normalization may add: no file and no derivation, or a derivation to a file that was there, or
-- one new file with a derivation to it.
abbrev pub Adds : Options → Database → Database → Type 0
Adds opts before after =
    SameRows before after
    ⊎ (((derived : String) × (mem derived (uuids before.files) ≡ true)
          × (uuids after.files ≡ uuids before.files)
          × OneDerivation opts derived before after)
        ⊎ OneFile opts before after)

OneDerivation-over :
    (opts : Options) (derived : String) (a b c : Database)
    → b.derivations ≡ a.derivations
    → OneDerivation opts derived b c
    → OneDerivation opts derived a c
OneDerivation-over opts derived a b c same (event, added) = (
  event,
  added
      ∙ ap
          (λ l.
            l
            ++ (record { source_file = opts.file_uuid; derived_file = derived; event = event })
              ∷ [])
          same,
)

Adds-same : (opts : Options) (a b c : Database) → SameRows a b → Adds opts b c → Adds opts a c
Adds-same opts a b c s (inl t) = inl (SameRows-trans a b c s t)
Adds-same opts a b c s (inr (inl (derived, m, u, one))) = inr (
    inl (
      derived,
      ap (mem derived) (sym s.0) ∙ m,
      u ∙ s.0,
      OneDerivation-over opts derived a b c s.1 one,
    ))
Adds-same opts a b c s (inr (inr (m, u, one))) = inr (
    inr (
      ap (mem opts.task_uuid) (sym s.0) ∙ m,
      u ∙ ap (λ l. l ++ opts.task_uuid ∷ []) s.0,
      OneDerivation-over opts opts.task_uuid a b c s.1 one,
    ))

mem_last : (x : String) (xs : List String) → mem x (xs ++ x ∷ []) ≡ true
mem_last x xs = ground (arith, mem-append x xs (x ∷ []), eq_refl x)

module _ (around : Surroundings) where
  pub insert_derivation_event-OneDerivation :
      (opts : Options) (derived id detail note : String) (db db' : Database)
      → insert_derivation_event around opts.file_uuid derived id detail note db ≡ ok db'
      → (uuids db'.files ≡ uuids db.files) × OneDerivation opts derived db db'
  unfolding insert_derivation_event
  insert_derivation_event-OneDerivation opts derived id detail note db db' e =
      let (logged, q, e1) =
        bind_ok
          (insert_into_events around.storage opts.file_uuid id "normalization" around.now detail ""
            note db)
          _ e in
      let same =
        insert_into_events-SameRows around.storage opts.file_uuid id "normalization" around.now
          detail "" note db logged q in
      let (kept, added) =
        insert_into_derivations-ok around.storage opts.file_uuid derived id logged db' e1 in
      (kept ∙ same.0, OneDerivation-over opts derived db logged db' same.1 (id, added))

  register_file-OneFile :
      (opts : Options) (id detail ef : String) (db db' : Database)
      → register_file around opts id detail ef db ≡ ok db'
      → OneFile opts db db'
  unfolding register_file new_uuid
  register_file-OneFile opts id detail ef db db' e =
      let (filed, q, e1) =
        bind_ok
          (add_file_to_sip around.storage _ opts.task_uuid opts.sip_uuid around.now "creation"
            "preservation" db)
          _ e in
      let (fresh, added, kept) =
        add_file_to_sip-ok around.storage _ opts.task_uuid opts.sip_uuid around.now "creation"
          "preservation" db filed q in
      let made = (new_uuid around.storage filed).1 in
      let event_uuid = (new_uuid around.storage filed).0 in
      let (summed, q', e2) =
        bind_ok
          (update_size_and_checksum around.storage opts.task_uuid ef around.now event_uuid none ""
            "" true made)
          _ e1 in
      let same =
        update_size_and_checksum-SameRows around.storage opts.task_uuid ef around.now event_uuid
          none "" "" true made summed q' in
      let (uuids_kept, one) =
        insert_derivation_event-OneDerivation opts opts.task_uuid id detail _ summed db' e2 in
      (
        fresh,
        uuids_kept ∙ same.0 ∙ added,
        OneDerivation-over opts opts.task_uuid db summed db' (same.1 ∙ kept) one,
      )

  register_format-db :
      (format : Option (Option (String × String))) (opts : Options) (world : World)
      (registered : Bool × World)
      → register_format around format opts world ≡ ok registered
      → registered.1.db ≡ world.db
  unfolding register_format
  register_format-db none opts world registered e = absurd (raise-ne-ok e)
  register_format-db (some none) opts world registered e =
      ap (λ (x : Bool × World). x.1.db) (sym (ok-injective e))
  register_format-db (some (some f)) opts world registered e =
      ap (λ (x : Bool × World). x.1.db) (sym (ok-injective e))

  -- A second file cannot be registered: the UUID of the task is in use.
  register_all_again :
      (details : Details) (opts : Options) (id detail : String) (files : List String)
      (world : World) (done_ : Bool × World)
      → mem opts.task_uuid (uuids world.db.files) ≡ true
      → register_all around details opts id detail files world ≡ ok done_
      → done_.1.db ≡ world.db
  unfolding register_all
  register_all_again details opts id detail [] world done_ m e =
      ap (λ (x : Bool × World). x.1.db) (sym (ok-injective e))
  register_all_again details opts id detail (ef ∷ rest) world done_ m e =
      let (db, q, _) = bind_ok (register_file around opts id detail ef world.db) _ e in
      absurd (differ (sym m ∙ (register_file-OneFile opts id detail ef world.db db q).0))
    where
      differ : true ≢ false
      differ p = cc

  -- The rows of the output: none, or one file.
  pub register_all-Adds :
      (details : Details) (opts : Options) (id detail : String) (files : List String)
      (world : World) (done_ : Bool × World)
      → register_all around details opts id detail files world ≡ ok done_
      → Adds opts world.db done_.1.db
  unfolding register_all
  register_all-Adds details opts id detail [] world done_ e =
      subst (λ (x : Bool × World). Adds opts world.db x.1.db) (ok-injective e) (inl (refl, refl))
  register_all-Adds details opts id detail (ef ∷ rest) world done_ e =
      let (db, q, e1) = bind_ok (register_file around opts id detail ef world.db) _ e in
      let one = register_file-OneFile opts id detail ef world.db db q in
      let (registered, q', e2) =
        bind_ok (register_format around details.output_format opts (record world { db = db })) _
          e1 in
      let same =
        register_format-db details.output_format opts (record world { db = db }) registered q' in
      let used : mem opts.task_uuid (uuids registered.1.db.files) ≡ true =
        ap (λ (d : Database). mem opts.task_uuid (uuids d.files)) same
        ∙ ap (mem opts.task_uuid) one.1
        ∙ mem_last opts.task_uuid (uuids world.db.files) in
      subst (λ d. Adds opts world.db d) (sym (ended registered.0 registered.1 used e2 ∙ same))
        (inr (inr one))
    where
      ended :
          (b : Bool) (after : World)
          → mem opts.task_uuid (uuids after.db.files) ≡ true
          → (if b then register_all around details opts id detail rest after else ok (false, after))
            ≡ ok done_
          → done_.1.db ≡ after.db
      ended true after used p = register_all_again details opts id detail rest after done_ used p
      ended false after used p = ap (λ (x : Bool × World). x.1.db) (sym (ok-injective p))
