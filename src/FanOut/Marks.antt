-- ===== src/FanOut/Marks.antt =====
-- The marks of recent events: which are kept, and for how long.
use taskboard.Common.{
  Bool, Bool-cases, List, String, [], any, any-false-count, ap, arith, count, count-append,
  count-zero-any, eq_iff, false, inl, inr, length, length-append, ltb, nat_eq, refl, string_eq,
  subst, suc, sym, true, ℕ, ◌*◌, ◌++◌, ◌+◌, ◌-◌, ◌<◌, ◌==◌, ◌||◌, ◌∙◌, ◌∷◌, ◌≡◌, ◌≤◌,
}
use taskboard.FanOut.{Entry, Recent, drop_oldest, forget, has_key, mark_event_seen, max_recent}
use taskboard.Model.{
  control_kind_eq, control_status_eq, escalation_eq, item_eq, status_eq, visibility_eq,
}
use taskboard.Stamp.{Time, minute}

-- The marks in the order of their times are the entries of the map, each once.
pub record IsSynced (r : Recent) : Type 0 where
  pub once : (id : String) → count (has_key id) r.order ≤ 1
  pub known : (id : String) → any (has_key id) r.order ≡ true → any (has_key id) r.events ≡ true

any-append {ℓ} :
    {A : Type ℓ} (p : A → Bool) (xs ys : List A) → any p (xs ++ ys) ≡ (any p xs || any p ys)
any-append p [] ys = refl
any-append p (x ∷ xs) ys = ground (arith, any-append p xs ys)

any-forget :
    (id : String) (oldest : Entry) (events : List Entry)
    → (oldest.0 == id) ≡ false
    → any (has_key id) (forget oldest events) ≡ any (has_key id) events
any-forget id oldest [] apart = refl
any-forget id (k, at_time) ((key, seen) ∷ events) apart =
    ground
      (arith, any-forget id (k, at_time) events apart, eq_iff key id, eq_iff key k, eq_iff k id)

drop_oldest-IsSynced :
    (cutoff : Time) (events order : List Entry)
    → IsSynced (record { events = events; order = order })
    → IsSynced (drop_oldest cutoff events order)
unfolding drop_oldest
drop_oldest-IsSynced cutoff events [] s = s
drop_oldest-IsSynced cutoff events ((k, seen) ∷ order) s =
    elim (Bool-cases (ltb max_recent (suc (length order)) || ltb seen cutoff)) [
      | inr kept ↦ rw kept s
      | inl dropped ↦ rw dropped (
          drop_oldest-IsSynced cutoff (forget (k, seen) events) order (record {
            once = λ id. ground (arith, s.once id);
            known = λ id m.
                let apart : (k == id) ≡ false = elim (Bool-cases (k == id)) [
                  | inr other ↦ other
                  | inl same ↦
                      let none_left : count (has_key id) order ≡ 0 =
                        ground (arith, s.once id, same) in
                      let gone = count-zero-any (has_key id) order none_left in
                      absurd (ground arith)
                ] in
                any-forget id (k, seen) events apart ∙ s.known id (ground (arith, m));
          }))
    ]

pub mark_event_seen-IsSynced :
    (now : Time) (r : Recent) (id : String) → IsSynced r → IsSynced (mark_event_seen now r id).0
unfolding mark_event_seen
mark_event_seen-IsSynced now r id s = elim (Bool-cases (any (has_key id) r.events)) [
  | inl known ↦ rw known s
  | inr fresh ↦ rw fresh (
      drop_oldest-IsSynced (now - 10 * minute) (r.events ++ (id, now) ∷ [])
        (r.order ++ (id, now) ∷ [])
        (record {
          once = λ k. elim (Bool-cases (id == k)) [
            | inr other ↦
                ground (arith, other, s.once k, count-append (has_key k) r.order ((id, now) ∷ []))
            | inl same ↦
                let e : id ≡ k = (eq_iff id k).0 same in
                let absent : any (has_key id) r.order ≡ false = ground (arith, s.known id, fresh) in
                let none_yet : count (has_key k) r.order ≡ 0 =
                  subst (λ x. count (has_key x) r.order ≡ 0) e
                    (any-false-count (has_key id) r.order absent) in
                ground (arith, none_yet, count-append (has_key k) r.order ((id, now) ∷ []))
          ];
          known = λ k m. ground (
            arith,
            m,
            s.known k,
            any-append (has_key k) r.order ((id, now) ∷ []),
            any-append (has_key k) r.events ((id, now) ∷ []),
          );
        }))
]

append_assoc {ℓ} : {A : Type ℓ} (xs ys zs : List A) → (xs ++ ys) ++ zs ≡ xs ++ (ys ++ zs)
append_assoc [] ys zs = refl
append_assoc (x ∷ xs) ys zs = ap (λ es. x ∷ es) (append_assoc xs ys zs)

-- The mark of `id` at the time `now` is kept, with at most `n` marks after it.
pub record IsKept (id : String) (now : Time) (n : ℕ) (r : Recent) : Type 0 where
  pub before : List Entry
  pub after : List Entry
  pub order : r.order ≡ before ++ (id, now) ∷ after
  pub apart : any (has_key id) before ≡ false
  pub few : length after ≤ n
  pub known : any (has_key id) r.events ≡ true

drop_oldest-IsKept :
    (id : String) (now cutoff : Time) (n : ℕ) (events before after : List Entry)
    → ltb now cutoff ≡ false
    → n < max_recent
    → any (has_key id) before ≡ false
    → length after ≤ n
    → any (has_key id) events ≡ true
    → IsKept id now n (drop_oldest cutoff events (before ++ (id, now) ∷ after))
unfolding drop_oldest
drop_oldest-IsKept id now cutoff n events [] after young room apart few known =
    let short : ltb max_recent (suc (length after)) ≡ false = ground (arith, room, few) in
    rw (short, young)
      (record { before = []; after = after; order = refl; apart = refl; few = few; known = known })
drop_oldest-IsKept id now cutoff n events ((k, seen) ∷ before) after young room apart few known =
    elim (Bool-cases
      (ltb max_recent (suc (length (before ++ (id, now) ∷ after))) || ltb seen cutoff)) [
        | inl dropped ↦ rw dropped (
            drop_oldest-IsKept id now cutoff n (forget (k, seen) events) before after young room
              (ground (arith, apart)) few
              (any-forget id (k, seen) events (ground (arith, apart)) ∙ known))
        | inr kept ↦ rw kept (record {
          before = (k, seen) ∷ before;
          after = after;
          order = refl;
          apart = apart;
          few = few;
          known = known;
        })
      ]

-- Another mark within ten minutes keeps it.
pub mark_event_seen-IsKept :
    (id other : String) (now later : Time) (n : ℕ) (r : Recent)
    → later ≤ now + 10 * minute
    → suc n < max_recent
    → IsKept id now n r
    → IsKept id now (suc n) (mark_event_seen later r other).0
unfolding mark_event_seen
mark_event_seen-IsKept id other now later n r young room k =
    elim (Bool-cases (any (has_key other) r.events)) [
      | inl seen ↦ rw seen (record {
        before = k.before;
        after = k.after;
        order = k.order;
        apart = k.apart;
        few = omega (arith, k.few);
        known = k.known;
      })
      | inr fresh ↦
          let shape : r.order ++ (other, later) ∷ []
              ≡ k.before ++ (id, now) ∷ (k.after ++ (other, later) ∷ []) =
            ap (λ es. es ++ (other, later) ∷ []) k.order
            ∙ append_assoc k.before ((id, now) ∷ k.after) ((other, later) ∷ []) in
          rw fresh (
            subst
              (λ es.
                IsKept id now (suc n)
                  (drop_oldest (later - 10 * minute) (r.events ++ (other, later) ∷ []) es))
              (sym shape)
              (drop_oldest-IsKept id now (later - 10 * minute) (suc n)
                (r.events ++ (other, later) ∷ []) k.before (k.after ++ (other, later) ∷ [])
                (ground (arith, young)) room k.apart
                (omega (arith, k.few, length-append k.after ((other, later) ∷ [])))
                (ground (arith, k.known, any-append (has_key id) r.events ((other, later) ∷ [])))))
    ]

-- The first mark.
pub mark_event_seen-first :
    (id : String) (now : Time) (r : Recent)
    → IsSynced r
    → any (has_key id) r.events ≡ false
    → IsKept id now 0 (mark_event_seen now r id).0
unfolding mark_event_seen
mark_event_seen-first id now r s fresh =
    let absent : any (has_key id) r.order ≡ false = ground (arith, s.known id, fresh) in
    let itself : (id == id) ≡ true = (eq_iff id id).1 refl in
    rw fresh (
      drop_oldest-IsKept id now (now - 10 * minute) 0 (r.events ++ (id, now) ∷ []) r.order []
        (ground arith) (omega arith) absent (omega arith)
        (ground (arith, itself, any-append (has_key id) r.events ((id, now) ∷ []))))
