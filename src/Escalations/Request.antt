-- ===== src/Escalations/Request.antt =====
-- The checks of CreateEscalationFor on its request. `fold` is strings.ToLower.
use Prim.Native.Char.{code}
use Prim.Native.String.{len}
use taskboard.Common.{
  Bool, List, Result, String, [], err, false, if◌then◌else◌, leb, length, ltb, nat_eq, not, ok,
  string_eq, validation, ◌&&◌, ◌++◌, ◌==◌, ◌>>=◌, ◌>>◌, ◌||◌, ◌∷◌,
}
use taskboard.Escalations.{refuse_if}
use taskboard.Model.{
  CreateEscalationRequest, control_kind_eq, control_status_eq, escalation_eq, item_eq, message_eq,
  status_eq, visibility_eq,
}
use taskboard.Text.{contains, has_prefix, trim_space}

-- strings.ContainsAny(value, " \t\r\n")
has_blank : String → Bool
has_blank String.[] = false
has_blank (String.◌∷◌ c s) =
    code c == 32 || code c == 9 || code c == 13 || code c == 10 || has_blank s

-- validPersonID
unfoldable pub valid_person_id : String → Bool
unfolding has_blank
valid_person_id value =
    not (value == "")
    && leb (len value) 200
    && not (has_blank value)
    && not (has_prefix value "agent:")
    && not (has_prefix value "cloudflare_access:service_token:")

-- The loop of normalizeAnswerers, with the values that it has kept.
answerers_from : List String → List String → Result (List String)
answerers_from kept [] = ok kept
answerers_from kept (v ∷ vs) =
    let value = trim_space v in
    let next = answerers_from (if contains value kept then kept else kept ++ value ∷ []) vs in
    if valid_person_id value then next else err validation

-- normalizeAnswerers
unfoldable pub normalize_answerers : List String → Result (List String)
unfolding answerers_from
normalize_answerers values =
    if ltb 20 (length values) then err validation else answerers_from [] values

-- The loop over the options, with the keys that it has seen.
check_options : (String → String) → List String → List String → Result (List String)
check_options fold seen [] = ok []
check_options fold seen (o ∷ os) =
    let option = trim_space o in
    let rest = check_options fold (fold option ∷ seen) os in
    if option == "" || ltb 200 (len option) || contains (fold option) seen
    then err validation
    else rest >>= λ options. ok (option ∷ options)

-- The normalised request, or the error by which it is refused.
unfoldable pub check_escalation :
    (String → String) → String → CreateEscalationRequest → Result CreateEscalationRequest
unfolding check_options
check_escalation fold task_id request = do
  let asked = record request {
    run_id = trim_space request.run_id;
    question = trim_space request.question;
    recommendation = trim_space request.recommendation;
  }
  refuse_if (task_id == "" || asked.run_id == "" || ltb asked.expected_version 1) validation
  refuse_if (asked.question == "" || ltb 4000 (len asked.question)) validation
  refuse_if (ltb 1000 (len asked.recommendation) || ltb 10 (length asked.options)) validation
  options ← check_options fold [] asked.options
  answerers ← normalize_answerers asked.answerers
  refuse_if
      (not (asked.expires_in == 0) && (ltb asked.expires_in 60 || ltb 604_800 asked.expires_in))
      validation
  ok (record asked { options = options; answerers = answerers })
