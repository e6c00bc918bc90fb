-- ===== src/Netmiko/Output/Trimmed.antt =====
-- The sizes of what is kept.
use nw_edit.Prelude.{
  ℕ, suc, ◌≤◌, ◌<◌, sym, String, ◌≡◌, refl, Option, none, some, true, false, List, [], ◌∷◌, ◌++◌,
  arith, ◌==◌, eq_iff, join, Bool-cases, inl, inr, leb,
}
use text.Mathlib.TextLemmas.{nil≢cons}
use nw_edit.Text.Strip.{size, first_chars, size-first_chars}
use nw_edit.Text.Split.{join-split}
use nw_edit.Netmiko.Session.{Remote, Output, Session}
use nw_edit.Netmiko.Output.{
  max_log_size, max_diff_size, trim_log, trim_diff, log_lines, diff_of, store_verification_diff,
  finalize_logs, mark_cancelled,
}

-- The log of a result, as one text.
abbrev pub log_text : Output → String
log_text result = join "\n" result.logs

size-trim_log : (text : String) → size (trim_log text).0 ≤ max_log_size
unfolding trim_log
size-trim_log text = ground (arith, size-first_chars max_log_size text)

first_chars-nil : (n : ℕ) (text : String) → first_chars (suc n) text ≡ "" → size text ≡ 0
unfolding first_chars size
first_chars-nil n String.[] h = refl
first_chars-nil n (String.◌∷◌ c text) h = absurd (nil≢cons (sym h))

trim_log-nil : (text : String) → (trim_log text).0 ≡ "" → size text ≤ max_log_size
unfolding trim_log
trim_log-nil text h = elim (Bool-cases (leb (size text) max_log_size)) [
  | inl short ↦ ground arith
  | inr long ↦ omega (arith, first_chars-nil 1048575 text (rw long at h))
]

-- The log is the trimmed text, cut at its line feeds.
size-log_lines :
    (trimmed : String) (logs : List String)
    → size trimmed ≤ max_log_size
    → (trimmed ≡ "" → size (join "\n" logs) ≤ max_log_size)
    → size (join "\n" (log_lines trimmed logs)) ≤ max_log_size
unfolding log_lines
size-log_lines trimmed logs small empty = elim (Bool-cases (trimmed == "")) [
  | inl e ↦ rw e (empty ((eq_iff trimmed "").0 e))
  | inr e ↦ rw (e, join-split) small
]

pub size-finalize_logs : (s : Session) → size (log_text (finalize_logs s).result) ≤ max_log_size
unfolding finalize_logs
size-finalize_logs s =
    let text = join "\n" s.logs in
    size-log_lines (trim_log text).0 s.logs (size-trim_log text) (trim_log-nil text)

pub size-mark_cancelled : (s : Session) → size (log_text (mark_cancelled s).result) ≤ max_log_size
unfolding mark_cancelled
size-mark_cancelled s = size-finalize_logs (record s {
  result = record s.result {
    status = "cancelled";
    error = some "Job was cancelled by user request";
    error_code = some "cancelled";
  };
  logs = s.logs ++ "Execution cancelled by user request" ∷ [];
})

-- A diff is cut to its bound, and is whole unless it is marked as truncated; the size that is
-- reported with it is that of the whole diff.
pub trim_diff_lem :
    (diff : String)
    → let (kept, (was_trimmed, original_size)) = trim_diff diff in
      (size kept ≤ max_diff_size)
      × (original_size ≡ size diff)
      × (was_trimmed ≡ false → kept ≡ diff)
      × (was_trimmed ≡ true → size kept < original_size)
unfolding trim_diff
trim_diff_lem diff = ground (arith, size-first_chars max_diff_size diff)

-- What storing a diff leaves as it is.
pub record Keeps (s : Session) (after : Session) : Type 0 where
  pub status : after.result.status ≡ s.result.status
  pub error : after.result.error ≡ s.result.error
  pub error_code : after.result.error_code ≡ s.result.error_code
  pub logs : after.result.logs ≡ s.result.logs
  pub calls : after.calls ≡ s.calls
  pub outputs :
      (after.result.pre_output ≡ s.result.pre_output)
      × (after.result.apply_output ≡ s.result.apply_output)
      × (after.result.post_output ≡ s.result.post_output)

diff_of-Keeps :
    (remote : Remote) (pre post : Option String) (s : Session) → Keeps s (diff_of remote pre post s)
unfolding diff_of
diff_of-Keeps remote (some pre) (some post) s = record {
  status = refl;
  error = refl;
  error_code = refl;
  logs = refl;
  calls = refl;
  outputs = (refl, refl, refl);
}
diff_of-Keeps remote none post s = record {
  status = refl;
  error = refl;
  error_code = refl;
  logs = refl;
  calls = refl;
  outputs = (refl, refl, refl);
}
diff_of-Keeps remote (some pre) none s = record {
  status = refl;
  error = refl;
  error_code = refl;
  logs = refl;
  calls = refl;
  outputs = (refl, refl, refl);
}

pub store_verification_diff-Keeps :
    (remote : Remote) (s : Session) → Keeps s (store_verification_diff remote s)
unfolding store_verification_diff
store_verification_diff-Keeps remote s =
    diff_of-Keeps remote s.result.pre_output s.result.post_output s
