-- ===== src/Approvals/Names.antt =====
-- src/codex_agent_sdk/approvals.py: the names of the decisions that a request offers.
use codex_python_sdk_unoffic.Common.{
  String, true, not, none, some, List, [], ◌∷◌, ◌≡◌, refl, ap, ◌∙◌, arith, ◌==◌, string_eq, mem,
  without, select, inl, inr, Option-cases, Bool-cases, IsDistinct, mem-without, without-IsDistinct,
}
use codex_python_sdk_unoffic.Json.{Json}
use codex_python_sdk_unoffic.Approvals.{
  normalize_available_decision_name, normalize_from, normalize_available_decisions, or_default,
}

-- the names that the values have
pub names : List Json → List String
names [] = []
names (v ∷ vs) = elim (normalize_available_decision_name v) [
  | none ↦ names vs
  | some name ↦ name ∷ names vs
]

-- `l` without the names that were seen
abbrev unseen : List String → List String → List String
unseen seen l = select (λ x. not (mem x seen)) l

-- each name where it comes first
pub dedup : List String → List String
dedup [] = []
dedup (x ∷ l) = x ∷ without x (dedup l)

unseen-cons : (x : String) (seen l : List String) → unseen (x ∷ seen) l ≡ unseen seen (without x l)
unfolding mem
unseen-cons x seen [] = refl
unseen-cons x seen (y ∷ l) =
    ground (arith, unseen-cons x seen l, string_eq.agree_iff x y, string_eq.agree_iff y x)

unseen-seen :
    (x : String) (seen l : List String)
    → mem x seen ≡ true
    → unseen seen (without x l) ≡ unseen seen l
unseen-seen x seen [] h = refl
unseen-seen x seen (y ∷ l) h = elim (Bool-cases (y == x)) [
  | inl same ↦ ground (arith, h, same, (string_eq.agree_iff y x).0 same, unseen-seen x seen l h)
  | inr other ↦ ground (arith, other, unseen-seen x seen l h)
]

normalize_from-unseen :
    (seen : List String) (vs : List Json) → normalize_from seen vs ≡ unseen seen (dedup (names vs))
unfolding normalize_from names dedup
normalize_from-unseen seen [] = refl
normalize_from-unseen seen (v ∷ vs) = elim (Option-cases (normalize_available_decision_name v)) [
  | inl none_here ↦ ground (arith, none_here, normalize_from-unseen seen vs)
  | inr (x, e) ↦ ground (
    arith,
    e,
    normalize_from-unseen seen vs,
    normalize_from-unseen (x ∷ seen) vs,
    unseen-cons x seen (dedup (names vs)),
    unseen-seen x seen (dedup (names vs)),
  )
]

unseen-none : (l : List String) → unseen [] l ≡ l
unfolding mem
unseen-none [] = refl
unseen-none (x ∷ l) = ground (arith, unseen-none l)

dedup-IsDistinct : (l : List String) → IsDistinct (dedup l)
unfolding dedup mem
dedup-IsDistinct [] = tt
dedup-IsDistinct (x ∷ l) = (
  ground (arith, mem-without x x (dedup l), string_eq.agree_iff x x),
  without-IsDistinct x (dedup l) (dedup-IsDistinct l),
)

mem-dedup : (x : String) (l : List String) → mem x (dedup l) ≡ mem x l
unfolding dedup mem
mem-dedup x [] = refl
mem-dedup x (y ∷ l) =
    ground (arith, mem-without y x (dedup l), mem-dedup x l, string_eq.agree_iff y x)

-- The decisions that a request offers are the names of its values, each where it comes first, or the
-- defaults if no value has a name: an offered name is the name of a value, the name of each value is
-- offered, and none is offered twice.
pub normalize_available_decisions_lem :
    (raw_values : List Json) (default : List String)
    → (normalize_available_decisions (some raw_values) default
        ≡ or_default (dedup (names raw_values)) default)
      × ((x : String) → mem x (dedup (names raw_values)) ≡ mem x (names raw_values))
      × IsDistinct (dedup (names raw_values))
unfolding normalize_available_decisions
normalize_available_decisions_lem raw_values default = (
  ap (λ l. or_default l default)
      (normalize_from-unseen [] raw_values ∙ unseen-none (dedup (names raw_values))),
  (λ x. mem-dedup x (names raw_values)),
  dedup-IsDistinct (names raw_values),
)
