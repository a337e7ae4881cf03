-- ===== src/Scripts.antt =====
-- a3m/client/clientScripts: the modules whose `call` works on the jobs of a batch.
-- The children are the scripts: Move (move_or_merge.py), Names (change_names.py), Checksums
-- (verify_checksum.py), Rights (rights_from_csv.py), Normalize (normalize.py), Assign (assign_file_uuids.py)
-- and Policy (policy_check.py).
pub mod Move
pub mod Names
pub mod Checksums
pub mod Rights
pub mod Normalize
pub mod Assign
pub mod Policy
mod Tests
