-- ===== src/Store/Tables.antt =====
-- The tables of the Program store: `_migrate_0_to_1` of `adapters/sqlite_store.py`. A table is the
-- list of its rows, the newest one first. The tables of WorkUnits and Attempts, which neither `load`
-- nor `admit` reads, are left out.
use creatidy_kernel.Base.{ℕ, String, List}
use creatidy_kernel.Journal.Tables.{Journal}

-- Facts are the texts of Programs, inputs those of commands and creations.
module _ (Facts Input : Type 0) where
  pub record HistoryRow : Type 0 where
    pub program_id : String
    pub sequence : ℕ
    pub schema_version : ℕ
    pub command_key : String
    pub command_type : String
    pub actor_id : String
    pub input_digest : String
    pub input_json : Input
    pub aggregate_revision : ℕ
    pub facts_digest : String
    pub facts_json : Facts

  pub record AdmissionRow : Type 0 where
    pub command_key : String
    pub program_id : String
    pub command_type : String
    pub input_digest : String
    pub result_sequence : ℕ
    pub result_digest : String
    pub result_json : Facts

  pub record ProjectionRow : Type 0 where
    pub program_id : String
    pub aggregate_revision : ℕ
    pub history_sequence : ℕ
    pub schema_version : ℕ
    pub facts_digest : String
    pub program_json : Facts

  pub record Store : Type 0 where
    pub history : List HistoryRow
    pub admissions : List AdmissionRow
    pub projections : List ProjectionRow
    pub journal : Journal
