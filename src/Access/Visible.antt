-- ===== src/Access/Visible.antt =====
-- Who may view a private task, said without the branches of `can_view`.
use taskboard.Access.{can_view}
use taskboard.Access.Principals.{Identity, Principal, acts_for_creator}
use taskboard.Common.{
  Bool-cases, Option, String, arith, eq_iff, false, inl, inr, none, refl, some, true, ◌≡◌, ◌≢◌, ◌⊎◌,
}
use taskboard.Model.{Task, Visibility}

-- The person an agent acts for.
abbrev pub ActsFor : Principal → String → Type 0
ActsFor p person = (i : Identity) × (p.on_behalf_of ≡ some i) × (i.id ≡ person)

acts_for_creator-ActsFor :
    (t : Task) (p : Principal) (o : Option Identity)
    → p.on_behalf_of ≡ o
    → acts_for_creator t o ≡ true
    → (t.created_by ≢ "") × ActsFor p t.created_by
acts_for_creator-ActsFor t p none e h = cc
acts_for_creator-ActsFor t p (some i) e h =
    (ground (arith, eq_iff t.created_by ""), (i, e, ground (arith, eq_iff t.created_by i.id)))

-- A principal that may view a private task is the person who created it, an agent of the operator
-- who created it, or an agent acting for its creator.
pub can_view-private :
    (t : Task) (p : Principal)
    → t.visibility ≡ Visibility.private
    → can_view t p ≡ true
    → ((p.agent ≡ false) × (t.created_by ≡ p.id))
      ⊎ ((p.agent ≡ true) × (p.operator ≢ "") × (t.created_by ≡ p.operator))
      ⊎ ((p.agent ≡ true) × ActsFor p t.created_by)
unfolding can_view
can_view-private t p lane h = elim (Bool-cases p.agent) [
  | inr human ↦ inl (human, ground (arith, eq_iff t.created_by p.id))
  | inl agent ↦ elim (Bool-cases (acts_for_creator t p.on_behalf_of)) [
    | inl acts ↦ inr (inr (agent, (acts_for_creator-ActsFor t p p.on_behalf_of refl acts).1))
    | inr other ↦ inr (
        inl (
          agent,
          ground (arith, eq_iff p.operator ""),
          ground (arith, eq_iff t.created_by p.operator),
        ))
  ]
]
