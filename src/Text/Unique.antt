-- ===== src/Text/Unique.antt =====
-- The values that `unique` keeps.
use taskboard.Common.{
  Bool-cases, In, List, String, [], ap, arith, eq_iff, false, inl, inr, nat_eq, not, refl,
  string_eq, subst, sym, true, ◌&&◌, ◌==◌, ◌∷◌, ◌≡◌, ◌≢◌, ◌⊎◌,
}
use taskboard.Text.{contains, trim_space, unique, unique_from}

-- No text of the list is blank, is in `seen`, or stands twice.
abbrev pub IsFresh : List String → List String → Type 0
IsFresh seen [] = Unit
IsFresh seen (x ∷ xs) = (x ≢ "") × (contains x seen ≡ false) × IsFresh (x ∷ seen) xs

unique_from-IsFresh : (seen vs : List String) → IsFresh seen (unique_from seen vs)
unfolding unique_from
unique_from-IsFresh seen [] = tt
unique_from-IsFresh seen (v ∷ vs) =
    elim (Bool-cases (not (trim_space v == "") && not (contains (trim_space v) seen))) [
      | inl fresh ↦ rw fresh (
        ground (arith, eq_iff (trim_space v) ""),
        ground arith,
        unique_from-IsFresh (trim_space v ∷ seen) vs,
      )
      | inr known ↦ rw known (unique_from-IsFresh seen vs)
    ]

unique_from_trimmed :
    (seen vs : List String) (x : String)
    → In x (unique_from seen vs)
    → (v : String) × In v vs × (trim_space v ≡ x)
unfolding unique_from
unique_from_trimmed seen [] x m = elim m [ ]
unique_from_trimmed seen (v ∷ vs) x m =
    elim (Bool-cases (not (trim_space v == "") && not (contains (trim_space v) seen))) [
      | inl fresh ↦
          let go = rw fresh at m in
          elim go [
            | inl e ↦ (v, inl refl, sym e)
            | inr k ↦
                let (w, there, e) = unique_from_trimmed (trim_space v ∷ seen) vs x k in
                (w, inr there, e)
          ]
      | inr known ↦
          let go = rw known at m in
          let (w, there, e) = unique_from_trimmed seen vs x go in (w, inr there, e)
    ]

unique_from_complete :
    (seen vs : List String) (v : String)
    → In v vs
    → (trim_space v == "") ≡ false
    → (contains (trim_space v) seen ≡ true) ⊎ In (trim_space v) (unique_from seen vs)
unfolding unique_from contains
unique_from_complete seen [] v m h = elim m [ ]
unique_from_complete seen (x ∷ xs) v m h =
    elim (Bool-cases (not (trim_space x == "") && not (contains (trim_space x) seen))) [
      | inl fresh ↦ rw fresh (elim m [
        | inl e ↦ inr (inl (ap trim_space e))
        | inr k ↦ elim (unique_from_complete (trim_space x ∷ seen) xs v k h) [
          | inr there ↦ inr (inr there)
          | inl before ↦ elim (Bool-cases (trim_space x == trim_space v)) [
            | inl same ↦ inr (inl (sym ((eq_iff (trim_space x) (trim_space v)).0 same)))
            | inr other ↦ inl (ground arith)
          ]
        ]
      ])
      | inr known ↦ rw known (elim m [
        | inr k ↦ unique_from_complete seen xs v k h
        | inl e ↦
            let same = ap trim_space e in
            let blank : (trim_space x == "") ≡ false = subst (λ s. (s == "") ≡ false) same h in
            inl (subst (λ s. contains s seen ≡ true) (sym same) (ground arith))
      ])
    ]

-- The texts of the list, trimmed, are those of the result.
pub record IsTrimmed (values result : List String) : Type 0 where
  pub fresh : IsFresh [] result
  pub trimmed : (x : String) → In x result → (v : String) × In v values × (trim_space v ≡ x)
  pub complete :
      (v : String) → In v values → (trim_space v == "") ≡ false → In (trim_space v) result

-- The result of `unique` has no empty text and no text twice; each of its texts is one of the
-- values, trimmed, and every value that is not blank is in it, trimmed.
pub unique-IsTrimmed : (values : List String) → IsTrimmed values (unique values)
unfolding unique contains
unique-IsTrimmed values = record {
  fresh = unique_from-IsFresh [] values;
  trimmed = unique_from_trimmed [] values;
  complete = λ v m h. elim (unique_from_complete [] values v m h) [
    | inl none_seen ↦ cc
    | inr there ↦ there
  ];
}
