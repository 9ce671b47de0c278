-- ===== src/Creation/Duplicates.antt =====
-- The search for similar open tasks of internal/service/duplicates.go, with ListOpenTaskHeads of
-- internal/store/duplicates.go. `fold` is strings.ToLower, and `words` the fields of a lower-case
-- title that are made of letters and digits: both rest on Go's Unicode tables.
use Prim.Native.Char.{code}
use Prim.Native.String.{len}
use taskboard.Access.{can_view}
use taskboard.Access.Principals.{Principal}
use taskboard.Board.Queries.{str_before}
use taskboard.Common.{
  Bool, List, Option, Result, String, [], count, err, false, if◌then◌else◌, is_nil, is_none, leb,
  length, ltb, min, nat_eq, none, not, ok, order_by, select, similar_tasks, some, string_eq, ℕ,
  ◌&&◌, ◌*◌, ◌++◌, ◌+◌, ◌-◌, ◌==◌, ◌||◌, ◌∷◌,
}
use taskboard.Controls.Expire.{first_rows}
use taskboard.Model.{
  Board, NewTask, Task, TaskStatus, control_kind_eq, control_status_eq, escalation_eq, item_eq,
  status_eq, visibility_eq,
}
use taskboard.Stamp.{stamp_before}
use taskboard.Text.{contains, trim_space}

-- What the search takes from Go's packages.
pub record Words : Type 0 where
  pub fold : String → String
  pub split : String → List String
  -- unicode.IsDigit of the first byte
  pub starts_with_digit : String → Bool

-- strings.TrimSuffix
trim_suffix : String → String → String
trim_suffix suffix String.[] = ""
trim_suffix suffix (String.◌∷◌ c s) =
    if String.◌∷◌ c s == suffix then "" else String.◌∷◌ c (trim_suffix suffix s)

has_slash : String → Bool
has_slash String.[] = false
has_slash (String.◌∷◌ c s) = code c == b'/' || has_slash s

-- What follows the last slash.
last_part : String → String
unfolding has_slash
last_part String.[] = ""
last_part (String.◌∷◌ c s) =
    let rest = last_part s in
    if has_slash s then rest else if code c == b'/' then s else String.◌∷◌ c s

-- scopeName
scope_name : Words → String → String
unfolding trim_suffix last_part has_slash
scope_name words value =
    last_part (trim_suffix ".git" (trim_suffix "/" (words.fold (trim_space value))))

-- sameScope
unfoldable pub same_scope : Words → String → String → Bool
unfolding scope_name
same_scope words left right =
    let l = scope_name words left in let r = scope_name words right in l == "" || r == "" || l == r

-- titleStopWords
abbrev stop_words : List String
stop_words =
    "a" ∷ "an" ∷ "and" ∷ "are" ∷ "as" ∷ "at" ∷ "be" ∷ "by" ∷ "for" ∷ "from" ∷ "in" ∷ "into" ∷ "is"
    ∷ "it" ∷ "of" ∷ "on" ∷ "or" ∷ "the" ∷ "to" ∷ "via" ∷ "with" ∷ []

kept_words : Words → List String → List String → List String
kept_words words tokens [] = tokens
kept_words words tokens (w ∷ ws) =
    let fresh =
      not (contains w stop_words || ltb (len w) 2 && not (words.starts_with_digit w))
      && not (contains w tokens) in
    kept_words words (if fresh then tokens ++ w ∷ [] else tokens) ws

-- titleTokens: the set as a list without repetitions
unfoldable pub title_tokens : Words → String → List String
unfolding kept_words
title_tokens words title = kept_words words [] (words.split (words.fold title))

-- The score of a match is the fraction `shared / whole`.
pub record Score : Type 0 where
  pub shared : ℕ
  pub whole : ℕ

abbrev pub shared_words : List String → List String → ℕ
shared_words left right = count (λ w. contains w right) left

-- titleSimilarity, with its comparisons of fractions multiplied out. The counts of words are small,
-- so the rounding of the source's floating point does not change a comparison.
unfoldable pub title_similarity : List String → List String → Option Score
title_similarity left right =
    let shared = shared_words left right in
    let whole = length left + length right - shared in
    let smaller = min (length left) (length right) in
    let similar =
      if ltb smaller 2
      then shared == whole
      else leb (65 * whole) (100 * shared)
        || leb 3 shared && leb (8 * smaller) (10 * shared) && leb (3 * whole) (10 * shared) in
    if is_nil left || is_nil right || not similar
    then none
    else some (record { shared = shared; whole = whole })

-- `score > score`
better : Score × String → Score × String → Bool
better (s, a) (t, b) = ltb (t.shared * s.whole) (s.shared * t.whole)

abbrev pub is_head : Task → Bool
is_head t =
    (t.status == TaskStatus.queued
      || t.status == TaskStatus.active
      || t.status == TaskStatus.waiting
      || t.status == TaskStatus.blocked
      || t.status == TaskStatus.stale)
    && is_none t.duplicate_of

-- ORDER BY updated_at DESC,id
head_before : Task → Task → Bool
head_before t u =
    stamp_before u.updated_at t.updated_at
    || not (stamp_before t.updated_at u.updated_at) && str_before t.id u.id

-- ListOpenTaskHeads
list_open_task_heads : Board → ℕ → List Task
unfolding head_before
list_open_task_heads b limit = first_rows limit (order_by head_before (select is_head b.tasks))

matches_from : Words → Principal → List String → String → String → List Task → List (Score × String)
matches_from words principal wanted project repository [] = []
matches_from words principal wanted project repository (head ∷ heads) =
    let rest = matches_from words principal wanted project repository heads in
    let score = title_similarity wanted (title_tokens words head.title) in
    if can_view head principal
      && same_scope words project head.project
      && same_scope words repository head.repository
    then elim score [ none ↦ rest | some found_score ↦ (found_score, head.id) ∷ rest ]
    else rest

abbrev second_of : List (Score × String) → List String
second_of [] = []
second_of ((s, id) ∷ xs) = id ∷ second_of xs

-- findDuplicateCandidates, reduced to the identifiers of the candidates
unfoldable pub find_duplicate_candidates :
    Words → Board → Principal → String → String → String → List String
unfolding list_open_task_heads matches_from better
find_duplicate_candidates words b principal title project repository =
    let wanted = title_tokens words title in
    if is_nil wanted
    then []
    else first_rows 5 (
        second_of (
          order_by better
            (matches_from words principal wanted project repository (list_open_task_heads b 2000))))

-- checkDuplicates
unfoldable pub check_duplicates : Words → Board → Principal → NewTask → Result (List String)
check_duplicates words b principal r =
    let candidates = find_duplicate_candidates words b principal r.title r.project r.repository in
    if is_nil candidates then ok [] else if r.force_new then ok candidates else err similar_tasks
