-- ===== src/Lib.antt =====
-- Verification library for a3m, a lightweight version of Archivematica that turns transfers into
-- archival packages.
--
-- The engine (a3m/server) keeps a queue of packages. The queue hands the jobs of its active packages
-- to an executor; a job belongs to a link of the workflow document, and when it has run, its chain
-- chooses the next link by the job's exit code or by a decision. A client script job has tasks, which
-- go in batches to the client (a3m/client), whose scripts work on the files of the package.
--
-- The files:
--   Common            Python's own types: dictionaries, lists, texts, integers, exceptions.
--   Queue             a3m/server/queues.py. `PackageQueue` is a record with the active packages, the
--                     job queue, the package queue and the gauges; each method is a function from
--                     state to state. Queue/System has the steps of the executor that runs jobs, and
--                     Queue/Race those of two threads inside `schedule_job`.
--   Workflow          a3m/server/workflow.py, with the job statuses of a3m/main/models.py: the decoder
--                     of the document, `get_next_link` and `get_status_id`.
--   Workflow/Translation  a3m/server/translation.py.
--   Jobs              a3m/server/jobs: the chain's `__next__`, the exit code of a client script job,
--                     decisions, and what runs after what.
--   Tasks             a3m/server/tasks: a job's tasks and the batches in which they go to the client.
--   Client            a3m/client/job.py and a3m/client/mcp.py: the execution of a batch. A client
--                     script is a parameter, a function from jobs to jobs that may raise or exit.
--   Packages          a3m/server/packages.py: the variables of a package, the files that a job goes
--                     over, `get_package_status` (Packages/Status), and the
--                     start of a package (Packages/Launch).
--   Submit            a3m/server/jobs/client.py: the command lines and tasks of a client script job,
--                     from the mappings of Packages to the batches of Tasks.
--   Runner            a3m/server/runner.py: the stages of the server and its queue; what the thread of `stop`
--                     does after `stop` may have returned is a step of its own.
--   Helpers           The modules that the scripts call: a3m/dicts.py (Helpers/Variables, Helpers/Options),
--                     a3m/executeOrRunSubProcess.py (Helpers/Subprocess), a3m/databaseFunctions.py and
--                     a3m/fileOperations.py (Helpers/Database), `chunk_iterable` of
--                     a3m/archivematicaFunctions.py. Processes and the file system are parameters.
--   Fpr               a3m/fpr/registry.py: the queries of the format policy registry, and the loading of
--                     its data (Fpr/Loading).
--   Scripts           a3m/client/clientScripts. Each script is a function from its job and its world to a
--                     new one: Scripts/Move is move_or_merge.py, Scripts/Names change_names.py with
--                     change_object_names.py in Scripts/Names/Batches, Scripts/Checksums
--                     verify_checksum.py, Scripts/Rights rights_from_csv.py, Scripts/Normalize
--                     normalize.py, Scripts/Assign assign_file_uuids.py, Scripts/Policy
--                     policy_check.py.
-- A component's children hold its theorems; each Tests has small runs and the theorems at them.
--
-- A method that may raise returns a `Result`; one that may also block on a full queue returns an
-- `Outcome`. The loops of the source go over lists and are structural recursion, but for two that run
-- on fuel. The loop of `change_path` has one round more than there are paths, and the theorem on it
-- shows that it ends with a free name. `chunks` of Helpers takes a chunk size of at least 1, and as
-- much fuel as the list has elements (`all_present-chunks` in Helpers/Chunks). In Queue/Race a schedule
-- of two threads is an explicit list of turns; in Queue/System and Queue/Histories the calls do not overlap.
--
-- Not modelled: the database, but for the columns that a component reads back; what a script printed
-- before it raised; logging; the RPC server and the command line; generated code; the scripts' work on
-- XML, and the scripts that are not named above.
pub mod Common
pub mod Queue
pub mod Workflow
pub mod Jobs
pub mod Client
pub mod Tasks
pub mod Packages
pub mod Submit
pub mod Runner
pub mod Helpers
pub mod Fpr
pub mod Scripts
