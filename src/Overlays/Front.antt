-- ===== src/Overlays/Front.antt =====
-- What a visit of neighbours changes, and how many keys are unseen.
use git_slop.Base.{
  ℕ, suc, ◌+◌, ◌≤◌, ◌<◌, ◌≡◌, refl, inl, inr, true, false, not, ◌&&◌, ◌||◌, List, [], ◌∷◌, ◌++◌,
  arith, if◌then◌else◌, length, Text, Bool-cases, text_eq, text_eq_iff, text_eq_refl, member,
  insert_key, member-insert_key,
}
use git_slop.Overlays.Clusters.{Front, visit_reversed}

pub member-append :
    (x : Text) (xs ys : List Text) → member x (xs ++ ys) ≡ (member x xs || member x ys)
unfolding member
member-append x [] ys = refl
member-append x (y ∷ xs) ys = ground (arith, member-append x xs ys)

-- How many of the keys were not seen.
unfoldable pub unseen : List Text → List Text → ℕ
unseen visited [] = 0
unseen visited (k ∷ ks) =
    let rest = unseen visited ks in if member k visited then rest else suc rest

unseen-insert_key :
    (n : Text) (visited ks : List Text) → unseen (insert_key n visited) ks ≤ unseen visited ks
unfolding unseen
unseen-insert_key n visited [] = omega arith
unseen-insert_key n visited (k ∷ ks) =
    ground (arith, member-insert_key n k visited, unseen-insert_key n visited ks)

pub unseen-insert_key_lt :
    (n : Text) (visited ks : List Text)
    → member n visited ≡ false
    → member n ks ≡ true
    → unseen (insert_key n visited) ks < unseen visited ks
unfolding unseen member
unseen-insert_key_lt n visited [] h k = cc
unseen-insert_key_lt n visited (j ∷ ks) h k = elim (Bool-cases (text_eq j n)) [
  | inl same ↦
      let path = (text_eq_iff j n).0 same in
      let unseen_here : member j visited ≡ false = rw path h in
      ground (arith, member-insert_key n j visited, text_eq_iff n j, unseen-insert_key n visited ks)
  | inr other ↦ ground (
    arith,
    member-insert_key n j visited,
    text_eq_iff n j,
    text_eq_iff j n,
    unseen-insert_key_lt n visited ks h,
  )
]

pub member-visited :
    (front : Front) (ps : List Text) (x : Text)
    → member x ((visit_reversed front ps).visited) ≡ (member x front.visited || member x ps)
unfolding visit_reversed member
member-visited front [] x = ground arith
member-visited front (p ∷ ps) x =
    let before = visit_reversed front ps in
    ground (arith, member-visited front ps x, member-insert_key p x before.visited, text_eq_iff p x)

pub member-stack :
    (front : Front) (ps : List Text) (x : Text)
    → member x ((visit_reversed front ps).stack)
      ≡ (member x front.stack || (member x ps && not (member x front.visited)))
unfolding visit_reversed member
member-stack front [] x = ground arith
member-stack front (p ∷ ps) x =
    let before = visit_reversed front ps in
    ground (arith, member-stack front ps x, member-visited front ps x, text_eq_iff p x)

-- Each path that is pushed was unseen and is seen now.
pub size-visit_reversed :
    (front : Front) (ps ks : List Text)
    → ((x : Text) → member x ps ≡ true → member x ks ≡ true)
    → length ((visit_reversed front ps).stack) + unseen ((visit_reversed front ps).visited) ks
      ≤ length front.stack + unseen front.visited ks
unfolding visit_reversed member
size-visit_reversed front [] ks h = omega arith
size-visit_reversed front (p ∷ ps) ks h =
    let before = visit_reversed front ps in
    let rest = size-visit_reversed front ps ks (λ x k. h x (ground arith)) in
    let known : member p ks ≡ true = h p (rw (text_eq_refl p) refl) in
    elim (Bool-cases (member p before.visited)) [
      | inl seen ↦ rw seen rest
      | inr new ↦ rw new (omega (arith, rest, unseen-insert_key_lt p before.visited ks new known))
    ]

pub unseen-le : (visited ks : List Text) → unseen visited ks ≤ length ks
unfolding unseen
unseen-le visited [] = omega arith
unseen-le visited (k ∷ ks) = ground (arith, unseen-le visited ks)
