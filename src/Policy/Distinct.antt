-- ===== src/Policy/Distinct.antt =====
-- The rules that compilation collects from the packs of `compile_packs`, and their ids.
use mathlib.Core.List.{append_assoc, append-nil}
use git_slop.Base.{
  ◌≡◌, ◌≢◌, sym, inl, inr, Bool, false, List, [], ◌∷◌, ◌++◌, arith, All, Distinct-append, any,
  any-append, subst, ap, ◌∙◌, Text, text_eq, text_eq_iff, member, insert_key, member-insert_key, ok,
  Result-cases, Bool-cases,
}
use git_slop.Policy.Model.{PackRule, ResolvedPack}
use git_slop.Policy.Accepted.{HasDistinctIds}
use git_slop.Policy.Compile.{collect_rules, collect_packs}

abbrev has_id : Text → PackRule → Bool
has_id id rule = text_eq rule.id id

other_ids :
    (id : Text) (rules : List PackRule) → any (has_id id) rules ≡ false → All (λ r. r.id ≢ id) rules
other_ids id [] h = tt
other_ids id (rule ∷ rules) h =
    let same = text_eq_iff rule.id id in (ground arith, other_ids id rules (ground arith))

-- The set holds the ids of the rules, and no two of these share one.
abbrev IsIdSet : List Text → List PackRule → Type 0
IsIdSet ids rules = ((id : Text) → member id ids ≡ any (has_id id) rules) × HasDistinctIds rules

add_rule-IsIdSet :
    (ids : List Text) (rules : List PackRule) (rule : PackRule)
    → IsIdSet ids rules
    → member rule.id ids ≡ false
    → IsIdSet (insert_key rule.id ids) (rules ++ rule ∷ [])
add_rule-IsIdSet ids rules rule (set, d) new = (
  (λ id.
      ground (
        arith,
        member-insert_key rule.id id ids,
        set id,
        any-append (has_id id) rules (rule ∷ []),
      )),
  Distinct-append _ rules rule d (other_ids rule.id rules (sym (set rule.id) ∙ new)),
)

-- What the loop over a pack's rules leaves, if it accepts them.
abbrev Collected : List Text → List PackRule → List PackRule → Type 0
Collected ids rules all = IsIdSet ids all × (all ≡ rules)

collect_rules-IsIdSet :
    (more : List PackRule) (ids : List Text) (rules : List PackRule) (ids' : List Text)
    (rules' : List PackRule)
    → IsIdSet ids rules
    → collect_rules ids rules more ≡ ok (ids', rules')
    → Collected ids' (rules ++ more) rules'
unfolding collect_rules
collect_rules-IsIdSet [] ids rules ids' rules' set h =
    let same_ids : ids ≡ ids' = cc in
    let same_rules : rules ≡ rules' = cc in
    (
      subst (λ i. IsIdSet i rules') same_ids (subst (IsIdSet ids) same_rules set),
      sym same_rules ∙ sym (append-nil rules),
    )
collect_rules-IsIdSet (rule ∷ more) ids rules ids' rules' set h =
    elim (Bool-cases (member rule.id ids)) [
      | inl twice ↦ cc (rw twice at h)
      | inr new ↦
          let (next, all) =
            collect_rules-IsIdSet more (insert_key rule.id ids) (rules ++ rule ∷ []) ids' rules'
              (add_rule-IsIdSet ids rules rule set new) (rw new at h) in
          (next, all ∙ append_assoc rules (rule ∷ []) more)
    ]

-- The rules of the packs, in order.
abbrev pub rules_of_packs : List ResolvedPack → List PackRule
rules_of_packs [] = []
rules_of_packs (pack ∷ packs) = pack.manifest.rules ++ rules_of_packs packs

pub collect_packs-HasDistinctIds :
    (packs : List ResolvedPack) (pack_ids ids : List Text) (rules result : List PackRule)
    → IsIdSet ids rules
    → collect_packs pack_ids ids rules packs ≡ ok result
    → HasDistinctIds result × (result ≡ rules ++ rules_of_packs packs)
unfolding collect_packs
collect_packs-HasDistinctIds [] pack_ids ids rules result set h =
    let same : rules ≡ result = cc in
    (subst HasDistinctIds same (set.1), sym same ∙ sym (append-nil rules))
collect_packs-HasDistinctIds (pack ∷ packs) pack_ids ids rules result set h =
    elim (Bool-cases (member pack.manifest.id pack_ids)) [
      | inl twice ↦ cc (rw twice at h)
      | inr new ↦
          let kept = rw new at h in
          elim (Result-cases (collect_rules ids rules pack.manifest.rules)) [
            | inr (e, refused) ↦ cc (rw refused at kept)
            | inl ((ids', rules'), taken) ↦
                let (set', all) =
                  collect_rules-IsIdSet pack.manifest.rules ids rules ids' rules' set taken in
                let (distinct, every) =
                  collect_packs-HasDistinctIds packs (insert_key pack.manifest.id pack_ids) ids'
                    rules' result set' (rw taken at kept) in
                (
                  distinct,
                  every
                      ∙ ap (λ r. r ++ rules_of_packs packs) all
                      ∙ append_assoc rules pack.manifest.rules (rules_of_packs packs),
                )
          ]
    ]
