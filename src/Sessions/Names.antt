-- ===== src/Sessions/Names.antt =====
-- The sessions that `insertAgentRun` leaves, and the session of the run.
use taskboard.Board.Settings.{Settings}
use taskboard.Callsigns.{candidates}
use taskboard.Common.{
  All, Bool, Bool-cases, List, Option, Option-cases, String, [], any, arith, eq_iff, false, find,
  if◌then◌else◌, inl, inr, nat_eq, none, ok, refl, some, string_eq, subst, sym, true, update, ◌++◌,
  ◌==◌, ◌∙◌, ◌∷◌, ◌≡◌, ◌≢◌,
}
use taskboard.Model.{
  Board, Run, Session, control_kind_eq, control_status_eq, escalation_eq, item_eq, message_eq,
  status_eq, visibility_eq,
}
use taskboard.Sessions.{
  NewRun, add_run, insert_agent_run, insert_session, key_material, of_key, run_session,
  session_conflicts, touched,
}
use taskboard.Sessions.Key.{OfKey, insert_agent_run-OfKey}
use taskboard.Text.{sql_lower}

-- No two sessions conflict.
abbrev NoConflict : List Session → Type 0
NoConflict [] = Unit
NoConflict (s ∷ ss) = (any (session_conflicts s) ss ≡ false) × NoConflict ss

==-comm : (s t : String) → (s == t) ≡ (t == s)
==-comm s t = ground (arith, eq_iff s t, eq_iff t s)

session_conflicts_comm : (s t : Session) → session_conflicts s t ≡ session_conflicts t s
unfolding session_conflicts
session_conflicts_comm s t = ground (
  arith,
  ==-comm s.id t.id,
  ==-comm s.agent t.agent,
  ==-comm s.key_hash t.key_hash,
  ==-comm (sql_lower s.callsign) (sql_lower t.callsign),
)

any-snoc :
    (s new : Session) (ss : List Session)
    → any (session_conflicts s) ss ≡ false
    → session_conflicts s new ≡ false
    → any (session_conflicts s) (ss ++ new ∷ []) ≡ false
any-snoc s new [] h k = ground arith
any-snoc s new (x ∷ ss) h k = ground (arith, any-snoc s new ss)

NoConflict-snoc :
    (ss : List Session) (new : Session)
    → NoConflict ss
    → any (session_conflicts new) ss ≡ false
    → NoConflict (ss ++ new ∷ [])
NoConflict-snoc [] new h free = (refl, tt)
NoConflict-snoc (s ∷ ss) new h free = (
  any-snoc s new ss h.0 (ground (arith, session_conflicts_comm s new)),
  NoConflict-snoc ss new h.1 (ground arith),
)

insert_session-NoConflict :
    (sessions : List Session) (new : Session) (names : List String) (ss : List Session)
    (s : Session)
    → NoConflict sessions
    → insert_session sessions new names ≡ some (ss, s)
    → NoConflict ss
unfolding insert_session
insert_session-NoConflict sessions new [] ss s d h = cc
insert_session-NoConflict sessions new (name ∷ names) ss s d h =
    let named : Session = record new { callsign = name } in
    elim (Bool-cases (any (session_conflicts named) sessions)) [
      | inr free ↦
          let e : sessions ++ named ∷ [] ≡ ss = ground arith in
          subst NoConflict e (NoConflict-snoc sessions named d free)
      | inl clash ↦ elim (Option-cases (find (of_key new.agent new.key_hash) sessions)) [
        | inl absent ↦ insert_session-NoConflict sessions new names ss s d (ground arith)
        | inr (t, e) ↦ let e : sessions ≡ ss = ground arith in subst NoConflict e d
      ]
    ]

run_session-NoConflict :
    (settings : Settings) (id : String) (sessions : List Session) (run : NewRun) (key : String)
    (ss : List Session) (s : Session)
    → NoConflict sessions
    → run_session settings id sessions run key ≡ some (ss, s)
    → NoConflict ss
unfolding run_session
run_session-NoConflict settings id sessions run key ss s d h =
    let hash = settings.key_hash (key_material key run.id) in
    elim (Option-cases (find (of_key run.agent hash) sessions)) [
      | inl absent ↦
          insert_session-NoConflict sessions
            (record {
              id = id;
              agent = run.agent;
              client = run.client;
              key_hash = hash;
              callsign = "";
              created_at = run.started_at;
              updated_at = run.started_at;
            })
            (candidates id) ss s d (ground arith)
      | inr (t, e) ↦ let e : sessions ≡ ss = ground arith in subst NoConflict e d
    ]

-- The client and the time of use play no part in a conflict.
any-touched :
    (s : Session) (p : Session → Bool) (run : NewRun) (ss : List Session)
    → any (session_conflicts s) (update p (touched run) ss) ≡ any (session_conflicts s) ss
unfolding session_conflicts
any-touched s p run [] = refl
any-touched s p run (t ∷ ss) = ground (arith, any-touched s p run ss)

conflicts-touched :
    (s t : Session) (run : NewRun) → session_conflicts (touched run s) t ≡ session_conflicts s t
unfolding session_conflicts
conflicts-touched s t run = refl

any-touched_left :
    (s : Session) (b : Bool) (run : NewRun) (ss : List Session)
    → any (session_conflicts (if b then touched run s else s)) ss ≡ any (session_conflicts s) ss
any-touched_left s b run [] = refl
any-touched_left s true run (t ∷ ss) =
    ground (arith, conflicts-touched s t run, any-touched_left s true run ss)
any-touched_left s false run (t ∷ ss) = refl

touched-NoConflict :
    (p : Session → Bool) (run : NewRun) (ss : List Session)
    → NoConflict ss
    → NoConflict (update p (touched run) ss)
touched-NoConflict p run [] d = tt
touched-NoConflict p run (s ∷ ss) d = (
  any-touched (if p s then touched run s else s) p run ss ∙ any-touched_left s (p s) run ss ∙ d.0,
  touched-NoConflict p run ss d.1,
)

add_run-NoConflict :
    (b : Board) (run : NewRun) (o : Option (List Session × Session)) {b' : Board}
    → ((ss : List Session) (s : Session) → o ≡ some (ss, s) → NoConflict ss)
    → add_run b run o ≡ ok b'
    → NoConflict b'.sessions
add_run-NoConflict b run none d h = cc
add_run-NoConflict b run (some (ss, s)) {b'} d h =
    elim (Bool-cases (any (λ (r : Run). r.id == run.id) b.runs)) [
      | inl taken ↦ absurd (ground arith)
      | inr free ↦
          let e : update (λ t. t.id == s.id) (touched run) ss ≡ b'.sessions = ground arith in
          subst NoConflict e (touched-NoConflict (λ t. t.id == s.id) run ss (d ss s refl))
    ]

insert_agent_run-NoConflict :
    (settings : Settings) (id : String) (b : Board) (run : NewRun) (key : String) {b' : Board}
    → NoConflict b.sessions
    → insert_agent_run settings id b run key ≡ ok b'
    → NoConflict b'.sessions
unfolding insert_agent_run
insert_agent_run-NoConflict settings id b run key d h =
    add_run-NoConflict b run (run_session settings id b.sessions run key)
      (λ ss s e. run_session-NoConflict settings id b.sessions run key ss s d e) h

-- Two sessions that share neither an identifier, nor a key of one agent, nor a name up to case.
pub record Apart (s t : Session) : Type 0 where
  pub ids : s.id ≢ t.id
  pub keys : s.agent ≡ t.agent → s.key_hash ≢ t.key_hash
  pub names : sql_lower s.callsign ≢ sql_lower t.callsign

-- No two sessions share an identifier, a key, or a name up to case.
abbrev pub IsDistinct : List Session → Type 0
IsDistinct [] = Unit
IsDistinct (s ∷ ss) = All (Apart s) ss × IsDistinct ss

session_conflicts-Apart : (s t : Session) → session_conflicts s t ≡ false → Apart s t
unfolding session_conflicts
session_conflicts-Apart s t h = record {
  ids = λ e. ground (arith, h, (eq_iff t.id s.id).1 (sym e));
  keys = λ a k.
      ground
        (arith, h, (eq_iff t.agent s.agent).1 (sym a), (eq_iff t.key_hash s.key_hash).1 (sym k));
  names = λ e. ground (arith, h, (eq_iff (sql_lower t.callsign) (sql_lower s.callsign)).1 (sym e));
}

Apart-session_conflicts : (s t : Session) → Apart s t → session_conflicts s t ≡ false
unfolding session_conflicts
Apart-session_conflicts s t a = elim (Bool-cases (session_conflicts s t)) [
  | inr free ↦ free
  | inl clash ↦ elim (Bool-cases (t.id == s.id)) [
    | inl same ↦ absurd (a.ids (sym ((eq_iff t.id s.id).0 same)))
    | inr other ↦ elim (Bool-cases (sql_lower t.callsign == sql_lower s.callsign)) [
      | inl same ↦
          absurd (a.names (sym ((eq_iff (sql_lower t.callsign) (sql_lower s.callsign)).0 same)))
      | inr named ↦
          let agent : (t.agent == s.agent) ≡ true = ground (arith, clash, other, named) in
          let key : (t.key_hash == s.key_hash) ≡ true = ground (arith, clash, other, named) in
          absurd (
            a.keys (sym ((eq_iff t.agent s.agent).0 agent))
              (sym ((eq_iff t.key_hash s.key_hash).0 key)))
    ]
  ]
]

any-Apart :
    (s : Session) (ss : List Session) → any (session_conflicts s) ss ≡ false → All (Apart s) ss
any-Apart s [] h = tt
any-Apart s (t ∷ ts) h = (session_conflicts-Apart s t (ground arith), any-Apart s ts (ground arith))

Apart-any :
    (s : Session) (ss : List Session) → All (Apart s) ss → any (session_conflicts s) ss ≡ false
Apart-any s [] a = refl
Apart-any s (t ∷ ts) (a, rest) = rw (Apart-session_conflicts s t a) (Apart-any s ts rest)

NoConflict-IsDistinct : (ss : List Session) → NoConflict ss → IsDistinct ss
NoConflict-IsDistinct [] d = tt
NoConflict-IsDistinct (s ∷ ss) (h, d) = (any-Apart s ss h, NoConflict-IsDistinct ss d)

IsDistinct-NoConflict : (ss : List Session) → IsDistinct ss → NoConflict ss
IsDistinct-NoConflict [] d = tt
IsDistinct-NoConflict (s ∷ ss) (h, d) = (Apart-any s ss h, IsDistinct-NoConflict ss d)

-- Starting a run keeps the sessions distinct: if no two share an identifier, a key of one agent or
-- a name up to case before, no two do after. The one new run stands under a listed session, whose
-- name it bears, of the agent and the client of the run and with the digest of its key.
pub insert_agent_run-IsDistinct :
    (settings : Settings) (id : String) (b b' : Board) (run : NewRun) (key : String)
    → IsDistinct b.sessions
    → insert_agent_run settings id b run key ≡ ok b'
    → IsDistinct b'.sessions × OfKey settings b b' run key
insert_agent_run-IsDistinct settings id b b' run key d h = (
  NoConflict-IsDistinct b'.sessions
      (insert_agent_run-NoConflict settings id b run key (IsDistinct-NoConflict b.sessions d) h),
  insert_agent_run-OfKey settings id b b' run key h,
)
