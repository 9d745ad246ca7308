-- ===== src/Models.antt =====
-- app/db/models.py: the rows of the tables, and the database as the record of its tables.
-- A UUID is the number that it spells, and a time is a number of microseconds since an epoch that
-- lies before every time of the program. The columns that the program writes and never reads
-- (surrogate keys of stages and audit entries, created_at of chunks) are left out. The text
-- columns of closed vocabularies (statuses, stages, roles) are enumerations.
pub mod Status
pub mod Integrity
pub mod Samples
use knowledgebase.Prelude.{ℕ, Bool, List, [], Option}
use knowledgebase.Prelude.Text.{Text}
use knowledgebase.Models.Status.{DocStatus, JobStage, JobStatus, StageName, StageStatus, Role}

abbrev pub Uuid : Type 0
Uuid = ℕ

abbrev pub Time : Type 0
Time = ℕ

abbrev pub second : Time
second = 1000000

-- A hex digest is the number that it spells.
abbrev pub Digest : Type 0
Digest = ℕ

-- The table_schema column: what the tabular profiler found.
pub record Column : Type 0 where
  pub name : Text
  pub type_name : Text
  pub sample : List Text

pub record TableSchema : Type 0 where
  pub columns : List Column
  pub row_count : ℕ
  pub sheet_name : Option Text

pub record Tenant : Type 0 where
  pub id : Uuid
  pub name : Text

pub record ApiKey : Type 0 where
  pub id : Uuid
  pub tenant_id : Uuid
  pub key_hash : Digest
  pub label : Text
  pub role : Role
  pub is_active : Bool
  pub last_used : Option Time
  pub created_at : Time

pub record Document : Type 0 where
  pub id : Uuid
  pub tenant_id : Uuid
  pub filename : Text
  pub mime_type : Text
  pub minio_path : Text
  pub file_size : Option ℕ
  pub checksum : Digest
  pub parse_mode : Option Text
  pub status : DocStatus
  pub page_count : Option ℕ
  pub is_tabular : Bool
  pub table_schema : Option TableSchema
  pub created_at : Time
  pub updated_at : Time

pub record Chunk : Type 0 where
  pub id : Uuid
  pub document_id : Uuid
  pub tenant_id : Uuid
  pub chunk_index : ℕ
  pub chunk_text : Text
  pub token_count : ℕ
  pub page_number : Option ℕ
  pub start_char : ℕ
  pub end_char : ℕ
  pub checksum : Digest
  pub vector_id : Option Uuid
  pub fts_vector : Option Text

-- The detail column of a stage: a JSON object, as its keys and values.
abbrev pub Detail : Type 0
Detail = List (Text × Text)

pub record PipelineStage : Type 0 where
  pub document_id : Uuid
  pub tenant_id : Uuid
  pub stage : StageName
  pub status : StageStatus
  pub started_at : Option Time
  pub completed_at : Option Time
  pub detail : Option Detail

pub data AuditAction : Type 0 where
  upload delete : AuditAction

pub record AuditLog : Type 0 where
  pub tenant_id : Uuid
  pub action : AuditAction
  pub resource_id : Uuid

-- The payload column of a job: what each kind of worker reads from it.
pub data Payload : Type 0 where
  ingest_payload :
      (document_id tenant_id : Uuid) (filename mime_type minio_path strategy : Text) → Payload
  stage_payload : (document_id tenant_id : Uuid) → Payload
  purge_payload : (document_id tenant_id : Uuid) (minio_path : Text) → Payload

pub record PipelineJob : Type 0 where
  pub id : Uuid
  pub document_id : Uuid
  pub tenant_id : Uuid
  pub stage : JobStage
  pub status : JobStatus
  pub payload : Payload
  pub attempt : ℕ
  pub max_attempts : ℕ
  pub last_error : Option Text
  pub scheduled_at : Time
  pub locked_at : Option Time
  pub created_at : Time

pub record Db : Type 0 where
  pub tenants : List Tenant
  pub api_keys : List ApiKey
  pub documents : List Document
  pub chunks : List Chunk
  pub stages : List PipelineStage
  pub audit_logs : List AuditLog
  pub jobs : List PipelineJob

abbrev pub empty_db : Db
empty_db = record {
  tenants = [];
  api_keys = [];
  documents = [];
  chunks = [];
  stages = [];
  audit_logs = [];
  jobs = [];
}
