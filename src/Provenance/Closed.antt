-- ===== src/Provenance/Closed.antt =====
-- The record set that a writer leaves when it closes, as the verifier finds it.
pub mod Summary
pub mod Fits
pub mod Accepts
pub mod RoundTrip
use tod_dl.Provenance.Schema.Rules.{uuid_pattern}
use tod_dl.Provenance.{Library, value, same}
use tod_dl.Provenance.Schema.{schema_document}
use tod_dl.Provenance.Writer.{Writer, Closing, unsigned_summary}
use tod_dl.Provenance.Events.{load}
use tod_dl.Provenance.Verifier.{Record, Trust, content, unreadable, Final}
use tod_dl.Provenance.Written.{ReadsBack, load-dumps}
use tod_dl.Provenance.Accepted.{same_refl}
use tod_dl.Json.{end, null, Fields, int, str, obj, get_field, field, Items, arr}
use tod_dl.Json.Equal.{has_float}
use tod_dl.Json.Dict.{set_field, is_ordered, is_ordered_dict, all_above, are_ordered}
use tod_dl.Base.{
  ℕ, ◌-◌, ◌≤◌, String, true, none, some, ◌≡◌, refl, pos, str_lt, Bool, leb, negsuc, false,
}

-- The summary with its signature.
unfoldable pub signed_summary : {B : Type 0} → Library B → Closing → Writer B → Fields
signed_summary lib closing w =
    set_field "signature" (str (lib.signature (lib.dumps (obj (unsigned_summary closing w)))))
      (unsigned_summary closing w)

-- The writer with the summary that it writes.
pub finished : {B : Type 0} → Library B → Closing → Writer B → Writer B
unfolding signed_summary
finished lib closing w = record w {
  summary = some (lib.dumps (obj (signed_summary lib closing w)));
}

-- The record set that a writer leaves, as the verifier finds it.
unfoldable pub left_by : {B : Type 0} → Library B → Writer B → (String → Final) → Record B
left_by lib w destination = record {
  path = some (w.run_id, w.session_id);
  schema = content (lib.dumps schema_document);
  summary = elim w.summary [
    | some bytes ↦ content bytes
    | none ↦ unreadable "[Errno 2] No such file or directory"
  ];
  events = content w.events;
  destination = destination;
}

-- `--public-key` with the writer's key
pub trusting : String → Trust
trusting raw = record { public_key = some (content raw); expected_fingerprint = none }

pub schema-load :
    {B : Type 0} (lib : Library B)
    → ReadsBack lib
    → load lib (lib.dumps schema_document) ≡ value schema_document
unfolding schema_document is_ordered has_float str_lt all_above
schema-load lib reads = load-dumps lib reads schema_document refl refl

pub schema-same : {B : Type 0} (lib : Library B) → same lib schema_document schema_document ≡ true
unfolding schema_document has_float str_lt
schema-same lib = same_refl lib schema_document schema_document refl refl

-- Every value is an integer that is not negative.
unfoldable pub are_counts : Fields → Bool
are_counts end = true
are_counts (field name (int (pos n)) counts) = are_counts counts
are_counts (field name (int (negsuc n)) counts) = false
are_counts (field name null counts) = false
are_counts (field name _ counts) = false

-- What `close` is given, as the code gives it: a list of digests, a dictionary of settings, a number of
-- items, and counts that hold the run's finalized items; and a writer with the identifiers of a run.
pub record IsFitting {B : Type 0} (lib : Library B) (closing : Closing) (w : Writer B)
    : Type 0 where
  pub is_named : leb 1 (lib.text_length w.run_id) ≡ true
  pub is_session : lib.search uuid_pattern w.session_id ≡ true
  pub digests : Items
  pub has_digests : closing.queue_input_digests ≡ arr digests
  pub digests_ordered : are_ordered digests ≡ true
  pub settings : Fields
  pub has_settings : closing.selection_settings ≡ obj settings
  pub settings_ordered : is_ordered_dict settings ≡ true
  pub selected : ℕ
  pub has_selected : closing.selected_item_count ≡ int (pos selected)
  pub counts : Fields
  pub complete : ℕ
  pub has_counts : closing.durable_outcome_counts ≡ obj counts
  pub counts_ordered : is_ordered_dict counts ≡ true
  pub are_counted : are_counts counts ≡ true
  pub has_complete : get_field "complete" counts ≡ int (pos complete)
  pub covers : w.finalized_count ≤ complete
