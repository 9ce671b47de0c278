-- ===== src/Creation/Requirements.antt =====
-- Requirement tokens: `IsRequirementToken` of internal/model/model.go, `normalizeRequirements`,
-- `insertRequirements`, `setTaskRequirementsFor` and `AdvertiseWorkerFor` of
-- internal/service/matching.go.
use Prim.Native.Char.{code}
use Prim.Native.String.{len}
use taskboard.Access.{can_mutate}
use taskboard.Access.Principals.{Capability, Permission, Principal, can, has_capability}
use taskboard.Board.Queries.{TaskView, get_task, insert_event, load_task, str_before}
use taskboard.Board.Settings.{Call, Settings}
use taskboard.Claim.{get_for}
use taskboard.Common.{
  Bool, List, Result, String, [], conflict, err, false, forbidden, if◌then◌else◌, leb, length, ltb,
  map, nat_eq, not, ok, order_by, select, string_eq, true, validation, ℕ, ◌&&◌, ◌*◌, ◌++◌, ◌+◌,
  ◌==◌, ◌>>=◌, ◌>>◌, ◌||◌, ◌∷◌,
}
use taskboard.Creation.{refuse_if}
use taskboard.Dependencies.{touch_task}
use taskboard.Model.{
  Advertisement, Board, Event, Requirement, Value, control_kind_eq, control_status_eq,
  escalation_eq, item_eq, status_eq, visibility_eq,
}
use taskboard.Stamp.{second}
use taskboard.Text.{contains, to_lower, trim_space}
use taskboard.Update.Effects.{requirement_of}

is_small : ℕ → Bool
is_small n = leb b'a' n && leb n b'z'

is_digit : ℕ → Bool
is_digit n = leb b'0' n && leb n b'9'

-- [a-z0-9._/-]+ from its second character on
value_rest : String → Bool
value_rest String.[] = true
value_rest (String.◌∷◌ c s) =
    let n = code c in
    (is_small n || is_digit n || n == b'.' || n == b'_' || n == b'/' || n == b'-') && value_rest s

-- [a-z0-9_-]*(?::[a-z0-9._/-]+)?
name_rest : String → Bool
unfolding value_rest
name_rest String.[] = true
name_rest (String.◌∷◌ c s) =
    let n = code c in
    let rest = name_rest s in
    if n == b':'
    then not (s == "") && value_rest s
    else (is_small n || is_digit n || n == b'_' || n == b'-') && rest

token_pattern : String → Bool
token_pattern String.[] = false
token_pattern (String.◌∷◌ c s) = is_small (code c) && name_rest s

-- IsRequirementToken
unfoldable pub is_requirement_token : String → Bool
unfolding token_pattern name_rest value_rest is_small is_digit
is_requirement_token value = leb (len value) 100 && token_pattern value

-- The loop of normalizeRequirements; a token stays lower-case under `to_lower`.
tokens_from : List String → List String → Result (List String)
tokens_from kept [] = ok kept
tokens_from kept (v ∷ vs) =
    let value = to_lower (trim_space v) in
    let next = tokens_from (if contains value kept then kept else kept ++ value ∷ []) vs in
    if is_requirement_token value then next else err validation

-- normalizeRequirements
unfoldable pub normalize_requirements : List String → Result (List String)
unfolding tokens_from
normalize_requirements values =
    if ltb 50 (length values)
    then err validation
    else tokens_from [] values >>= λ items. ok (order_by str_before items)

-- insertRequirements
unfoldable pub insert_requirements : Call → Board → String → List String → String → Board
insert_requirements call b task_id items actor = record b {
  requirements = b.requirements ++ map (requirement_of task_id actor call.now) items;
}

requirements_event : Call → String → List String → ℕ → Principal → Event
requirements_event call task_id items version principal = record {
  id = call.new_id 0;
  task_id = task_id;
  run_id = "";
  kind = "task.requirements_updated";
  actor = principal.id;
  message = "Operational requirements updated";
  payload = ("requirements", Value.texts items) ∷ ("version", Value.number (version + 1)) ∷ [];
  created_at = call.now;
}

-- The transaction of setTaskRequirementsFor.
unfoldable pub write_requirements :
    Call → Board → String → List String → ℕ → Principal → Result Board
unfolding requirements_event
write_requirements call b task_id items expected principal = do
  current ← load_task b task_id
  refuse_if (not (current.version == expected)) conflict
  let cleared = record b {
    requirements = select (λ (r : Requirement). not (r.task_id == task_id)) b.requirements;
  }
  let stored = insert_requirements call cleared task_id items principal.id
  ok (
      insert_event
        (record stored { tasks = touch_task call.now task_id expected principal stored.tasks })
        (requirements_event call task_id items expected principal))

-- setTaskRequirementsFor
pub set_task_requirements_for :
    Settings → Call → Board → String → List String → ℕ → Principal → Result (Board × TaskView)
set_task_requirements_for settings call b task_id requirements expected principal = do
  refuse_if (principal.agent || not (can principal.identity Permission.task_write)) forbidden
  items ← normalize_requirements requirements
  refuse_if (ltb expected 1) validation
  task ← get_for settings call b task_id principal
  refuse_if (not (can_mutate task.row principal)) forbidden
  b' ← write_requirements call b task_id items expected principal
  shown ← get_task settings call b' task_id
  ok (b', shown)

-- UpsertWorkerAdvertisement
upsert_advertisement : List Advertisement → Advertisement → List Advertisement
upsert_advertisement [] item = item ∷ []
upsert_advertisement (a ∷ advertisements) item =
    let rest = upsert_advertisement advertisements item in
    if a.worker == item.worker then item ∷ advertisements else a ∷ rest

-- AdvertiseWorkerFor, without the descriptions of the capabilities; a time to live of no seconds is
-- five minutes.
pub advertise_worker_for :
    Call → Board → List String → ℕ → ℕ → Principal → Result (Board × Advertisement)
unfolding upsert_advertisement
advertise_worker_for call b capabilities capacity ttl_seconds principal = do
  refuse_if
      (not principal.agent || not (has_capability principal.identity Capability.worker_advertise))
      forbidden
  items ← normalize_requirements capabilities
  refuse_if (ltb 100 capacity) validation
  let ttl = if ttl_seconds == 0 then 300 else ttl_seconds
  refuse_if (ltb ttl 30 || ltb 3600 ttl) validation
  let item : Advertisement = record {
    worker = principal.id;
    capabilities = items;
    capacity = capacity;
    expires_at = call.now + ttl * second;
  }
  ok (record b { advertisements = upsert_advertisement b.advertisements item }, item)
