-- ===== src/Provenance/Verifier/Files.antt =====
-- What `verify` of src/verify_provenance.py reads: the files of the record and of the destination.
use tod_dl.Provenance.{Library, value, invalid, same, report}
use tod_dl.Provenance.Schema.{schema_document}
use tod_dl.Provenance.Events.{load}
use tod_dl.Json.{Json, null, Fields, obj}
use tod_dl.Base.{ℕ, String, not, Option, none, some, List, [], ◌∷◌, ◌++◌, ◌<>◌}

-- A file of the record: its text, that it is not there, or `str(exc)` of the OSError.
pub data Content (A : Type 0) : Type 0 where
  content : A → Content A
  unreadable : String → Content A

-- What `final.is_file()`, `stat` and `read_bytes` find at a path of the destination: the size and
-- the hash of the bytes, or the OSError of reading them.
pub data Final : Type 0 where
  missing : Final
  present : ℕ → String → Final
  fault : String → Final

-- What the verifier finds: the last two parts of the path, the files of the record, the destination. A
-- schema.json that is there can be read.
pub record Record (B : Type 0) : Type 0 where
  pub path : Option (String × String)
  pub schema : Content B
  pub summary : Content B
  pub events : Content (List B)
  pub destination : String → Final

-- `--public-key`, as the raw bytes that `read_public_key` gives or its error, and
-- `--expected-fingerprint`.
pub record Trust : Type 0 where
  pub public_key : Option (Content String)
  pub expected_fingerprint : Option String

-- load_json: the value and the errors; None where there is an error. A value that is nested more deeply
-- than Python's recursion goes is not in the model.
unfoldable pub load_json : {B : Type 0} → Library B → String → Content B → Json × List String
unfolding load
load_json lib name (unreadable message) = (null, (name <> ": invalid JSON: " <> message) ∷ [])
load_json lib name (content text) = elim (load lib text) [
  | value v ↦ (v, [])
  | invalid message ↦ (null, (name <> ": invalid JSON: " <> message) ∷ [])
]

-- the summary, if it is a dictionary
unfoldable pub dict_of : Json → Option Fields
dict_of (obj fields) = some fields
dict_of null = none
dict_of _ = none

-- The errors of reading schema.json and summary.json.
unfoldable pub file_faults : {B : Type 0} → Library B → Record B → List String
unfolding load_json
file_faults lib files =
    let schema = load_json lib "schema.json" files.schema in
    schema.1
    ++ report (not (same lib schema.0 schema_document))
        "schema.json: schema content changed or is unsupported"
    ++ (load_json lib "summary.json" files.summary).1

unfoldable pub lines_of : {B : Type 0} → Content (List B) → List B
lines_of (content lines) = lines
lines_of (unreadable message) = []

unfoldable pub events_fault : {B : Type 0} → Content (List B) → List String
events_fault (content lines) = []
events_fault (unreadable message) = ("events.jsonl: " <> message) ∷ []
