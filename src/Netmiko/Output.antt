-- ===== src/Netmiko/Output.antt =====
-- The checks and the trimming of what a device has answered.
pub mod Trimmed
use nw_edit.Prelude.{
  ℕ, String, Bool, true, false, Option, none, some, List, [], ◌∷◌, ◌++◌, ◌==◌, leb, if◌then◌else◌,
  join,
}
use nw_edit.Text.Strip.{contains_text, size, first_chars}
use nw_edit.Text.Lines.{splitlines_keep, concat_texts}
use nw_edit.Text.Split.{split}
use nw_edit.Netmiko.Session.{Remote, Output, Session, log}

abbrev pub error_patterns : List String
error_patterns =
    "% Invalid input" ∷ "Invalid input detected" ∷ "Error:" ∷ "Ambiguous command"
    ∷ "Incomplete command" ∷ "Unknown action" ∷ []

abbrev pub max_log_size : ℕ
max_log_size = 1048576

abbrev pub max_diff_size : ℕ
max_diff_size = 262144

first_pattern : List String → String → Option String
first_pattern [] output = none
first_pattern (pattern_text ∷ patterns) output =
    let later = first_pattern patterns output in
    if contains_text pattern_text output
    then some (join "" ("Command error detected: " ∷ pattern_text ∷ []))
    else later

-- `_check_for_errors`.
unfoldable pub check_for_errors : String → Option String
unfolding first_pattern
check_for_errors output = first_pattern error_patterns output

-- `_trim_log`.
unfoldable pub trim_log : String → String × Bool
trim_log text =
    if leb (size text) max_log_size then (text, false) else (first_chars max_log_size text, true)

-- `_trim_diff`.
unfoldable pub trim_diff : String → String × (Bool × ℕ)
trim_diff diff =
    let original_size = size diff in
    if leb original_size max_diff_size
    then (diff, (false, original_size))
    else (first_chars max_diff_size diff, (true, original_size))

-- `_create_unified_diff`.
unfoldable pub create_unified_diff : Remote → String → String → String
create_unified_diff remote pre post =
    concat_texts (remote.unified_diff (splitlines_keep pre) (splitlines_keep post))

-- `trimmed_logs.split("\n") if trimmed_logs else logs`.
log_lines : String → List String → List String
log_lines trimmed logs = if trimmed == "" then logs else split "\n" trimmed

-- `_finalize_logs`.
unfoldable pub finalize_logs : Session → Session
unfolding log_lines
finalize_logs s =
    let (trimmed, was_trimmed) = trim_log (join "\n" s.logs) in
    record s {
      result = record s.result { logs = log_lines trimmed s.logs; log_trimmed = was_trimmed };
    }

-- `_mark_cancelled`.
unfoldable pub mark_cancelled : Session → Session
mark_cancelled s = finalize_logs (record s {
  result = record s.result {
    status = "cancelled";
    error = some "Job was cancelled by user request";
    error_code = some "cancelled";
  };
  logs = s.logs ++ "Execution cancelled by user request" ∷ [];
})

-- `_mark_failed`.
unfoldable pub mark_failed : (error_code error_message log_message : String) → Session → Session
mark_failed error_code error_message log_message s = finalize_logs (record s {
  result = record s.result {
    status = "failed";
    error_code = some error_code;
    error = some error_message;
  };
  logs = s.logs ++ log_message ∷ [];
})

diff_of : Remote → Option String → Option String → Session → Session
diff_of remote (some pre) (some post) s =
    let (diff, (was_trimmed, original_size)) = trim_diff (create_unified_diff remote pre post) in
    log "Diff created" (record s {
      result = record s.result {
        diff = some diff;
        diff_truncated = was_trimmed;
        diff_original_size = original_size;
      };
    })
diff_of remote _ _ s = s

-- `_store_verification_diff`.
unfoldable pub store_verification_diff : Remote → Session → Session
unfolding diff_of
store_verification_diff remote s = diff_of remote s.result.pre_output s.result.post_output s
