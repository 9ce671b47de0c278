-- ===== src/Sessions/Key.antt =====
-- The session of a run that `insertAgentRun` has stored.
-- The run stands under the one session of its agent and key, which existed or is new.
use taskboard.Board.Settings.{Settings}
use taskboard.Callsigns.{candidates}
use taskboard.Common.{
  &&-true, Bool-cases, In, In-find, In-update, List, Option, Option-cases, String, [], any, ap,
  arith, eq_iff, find, find-holds, inl, inr, nat_eq, none, ok, refl, some, string_eq, subst, true,
  update, ◌++◌, ◌==◌, ◌∙◌, ◌∷◌, ◌≡◌,
}
use taskboard.Model.{
  Board, Run, Session, control_kind_eq, control_status_eq, escalation_eq, item_eq, message_eq,
  status_eq, visibility_eq,
}
use taskboard.Sessions.{
  NewRun, add_run, insert_agent_run, insert_session, key_material, of_key, run_session,
  session_conflicts, stored_run, touched,
}

pub record OfKey (settings : Settings) (b b' : Board) (run : NewRun) (key : String) : Type 0 where
  pub stored : Run
  pub runs : b'.runs ≡ b.runs ++ stored ∷ []
  pub session : Session
  pub listed : In session b'.sessions
  pub under : stored.session_id ≡ session.id
  pub named : stored.callsign ≡ session.callsign
  pub agent : session.agent ≡ run.agent
  pub key_hash : session.key_hash ≡ settings.key_hash (key_material key run.id)
  pub client : session.client ≡ run.client

-- The session that a run is given.
record Given (sessions ss : List Session) (agent hash : String) (s : Session) : Type 0 where
  listed : In s ss
  agent_of : s.agent ≡ agent
  hash_of : s.key_hash ≡ hash

of_key-Given :
    (sessions : List Session) (agent hash : String) (s : Session)
    → find (of_key agent hash) sessions ≡ some s
    → Given sessions sessions agent hash s
of_key-Given sessions agent hash s e =
    let (a, k) =
      &&-true (s.agent == agent) (s.key_hash == hash)
        (find-holds (of_key agent hash) sessions s e) in
    record {
      listed = In-find (of_key agent hash) sessions s e;
      agent_of = (eq_iff s.agent agent).0 a;
      hash_of = (eq_iff s.key_hash hash).0 k;
    }

In-snoc {ℓ} : {A : Type ℓ} (x : A) (xs : List A) → In x (xs ++ x ∷ [])
In-snoc x [] = inl refl
In-snoc x (y ∷ ys) = inr (In-snoc x ys)

insert_session-Given :
    (sessions : List Session) (new : Session) (names : List String) (ss : List Session)
    (s : Session)
    → insert_session sessions new names ≡ some (ss, s)
    → Given sessions ss new.agent new.key_hash s
unfolding insert_session
insert_session-Given sessions new [] ss s h = cc
insert_session-Given sessions new (name ∷ names) ss s h =
    let row : Session = record new { callsign = name } in
    elim (Bool-cases (any (session_conflicts row) sessions)) [
      | inr free ↦
          let listed_as : sessions ++ row ∷ [] ≡ ss = ground arith in
          let same : row ≡ s = ground arith in
          subst (Given sessions ss new.agent new.key_hash) same (record {
            listed = subst (In row) listed_as (In-snoc row sessions);
            agent_of = refl;
            hash_of = refl;
          })
      | inl clash ↦ elim (Option-cases (find (of_key new.agent new.key_hash) sessions)) [
        | inl absent ↦ insert_session-Given sessions new names ss s (ground arith)
        | inr (t, e) ↦
            let listed_as : sessions ≡ ss = ground arith in
            let same : t ≡ s = ground arith in
            subst (λ xs. Given sessions xs new.agent new.key_hash s) listed_as
              (of_key-Given sessions new.agent new.key_hash s (e ∙ ap some same))
      ]
    ]

run_session-Given :
    (settings : Settings) (id : String) (sessions : List Session) (run : NewRun) (key : String)
    (ss : List Session) (s : Session)
    → run_session settings id sessions run key ≡ some (ss, s)
    → Given sessions ss run.agent (settings.key_hash (key_material key run.id)) s
unfolding run_session
run_session-Given settings id sessions run key ss s h =
    let hash = settings.key_hash (key_material key run.id) in
    elim (Option-cases (find (of_key run.agent hash) sessions)) [
      | inl absent ↦
          insert_session-Given sessions
            (record {
              id = id;
              agent = run.agent;
              client = run.client;
              key_hash = hash;
              callsign = "";
              created_at = run.started_at;
              updated_at = run.started_at;
            })
            (candidates id) ss s (ground arith)
      | inr (t, e) ↦
          let listed_as : sessions ≡ ss = ground arith in
          let same : t ≡ s = ground arith in
          subst (λ xs. Given sessions xs run.agent hash s) listed_as
            (of_key-Given sessions run.agent hash s (e ∙ ap some same))
    ]

add_run-OfKey :
    (settings : Settings) (b b' : Board) (run : NewRun) (key : String)
    (o : Option (List Session × Session))
    → ((ss : List Session) (s : Session)
        → o ≡ some (ss, s)
        → Given b.sessions ss run.agent (settings.key_hash (key_material key run.id)) s)
    → add_run b run o ≡ ok b'
    → OfKey settings b b' run key
add_run-OfKey settings b b' run key none g h = cc
add_run-OfKey settings b b' run key (some (ss, s)) g h =
    elim (Bool-cases (any (λ (r : Run). r.id == run.id) b.runs)) [
      | inl taken ↦ absurd (ground arith)
      | inr free ↦
          let here = λ (t : Session). t.id == s.id in
          let rows : update here (touched run) ss ≡ b'.sessions = ground arith in
          let given = g ss s refl in
          let self : here s ≡ true = (eq_iff s.id s.id).1 refl in
          record {
            stored = stored_run run s;
            runs = ground arith;
            session = touched run s;
            listed = subst (In (touched run s)) rows (
                subst (λ x. In x (update here (touched run) ss)) (rw self refl)
                  (In-update here (touched run) s ss given.listed));
            under = refl;
            named = refl;
            agent = given.agent_of;
            key_hash = given.hash_of;
            client = refl;
          }
    ]

pub insert_agent_run-OfKey :
    (settings : Settings) (id : String) (b b' : Board) (run : NewRun) (key : String)
    → insert_agent_run settings id b run key ≡ ok b'
    → OfKey settings b b' run key
unfolding insert_agent_run
insert_agent_run-OfKey settings id b b' run key h =
    add_run-OfKey settings b b' run key (run_session settings id b.sessions run key)
      (λ ss s e. run_session-Given settings id b.sessions run key ss s e) h
