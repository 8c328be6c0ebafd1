-- ===== src/Artifact/Calls.antt =====
-- What holds behind a call, whatever its outcome: `Q` where it succeeds, `E` where it fails or the
-- process ends.
use git_slop.Base.{ℕ, ◌≡◌, sym, subst, Option, none, some, List, [], ◌∷◌}
use git_slop.Artifact.Disk.{
  Disk, Outcome, succeeds, fails, dies, World, Ending, done, failed, died, M, continue, ignored,
  handled, finish, call_with, call,
}

abbrev pub Post : (Disk → Type 0) → (Disk → Type 0) → World × Ending (Unit {0}) → Type 0
Post Q E (w, done a) = Q w.disk
Post Q E (w, failed) = E w.disk
Post Q E (w, died) = E w.disk

abbrev pub Is : Disk → Disk → Type 0
Is e d = d ≡ e

abbrev pub at : Disk → List Outcome → World
at d os = record { disk = d; outcomes = os }

-- What a call may leave when it succeeds, or is refused.
abbrev pub Ends : (Disk → Type 0) → Type 0 → Option Disk → Type 0
Ends Q e none = e
Ends Q e (some d) = Q d

module _ (Q E : Disk → Type 0) where
  finish_lem :
      (o : Option Disk) (os : List Outcome) (d : Disk) → Ends Q (E d) o → Post Q E (finish o os d)
  finish_lem none os d h = h
  finish_lem (some after) os d h = h

  call_with_lem :
      (partial : ℕ → Disk → Disk) (whole : Disk → Option Disk) (os : List Outcome) (d : Disk)
      → ((n : ℕ) → E (partial n d))
      → E d
      → Ends Q (E d) (whole d)
      → Post Q E (call_with partial whole os d)
  call_with_lem partial whole [] d part kept full = finish_lem (whole d) [] d full
  call_with_lem partial whole (succeeds ∷ os) d part kept full = finish_lem (whole d) os d full
  call_with_lem partial whole (fails n ∷ os) d part kept full = part n
  call_with_lem partial whole (dies n ∷ os) d part kept full = part n

  pub call_lem :
      (partial : ℕ → Disk → Disk) (whole : Disk → Option Disk) (d : Disk) (os : List Outcome)
      → ((n : ℕ) → E (partial n d))
      → E d
      → Ends Q (E d) (whole d)
      → Post Q E (call partial whole (at d os))
  unfolding call
  call_lem partial whole d os part kept full = call_with_lem partial whole os d part kept full

  -- A call that leaves the disk alone unless it succeeds.
  pub atomic_lem :
      (whole : Disk → Option Disk) (d : Disk) (os : List Outcome)
      → E d
      → Ends Q (E d) (whole d)
      → Post Q E (call (λ n e. e) whole (at d os))
  atomic_lem whole d os kept full = call_lem (λ n e. e) whole d os (λ n. kept) kept full

  pub touch_lem :
      (d : Disk) (os : List Outcome) → E d → Q d → Post Q E (call (λ n e. e) some (at d os))
  touch_lem d os kept own = atomic_lem some d os kept own

module _ (R E : Disk → Type 0) where
  -- A sequence, from the one disk that its first part may leave.
  pub then_lem :
      (e : Disk) (r : World × Ending (Unit {0})) (k : M (Unit {0}))
      → Post (Is e) E r
      → ((os : List Outcome) → Post R E (k (at e os)))
      → Post R E (continue r (λ _. k))
  then_lem e (w, done a) k p h =
      subst (λ (d : Disk). Post R E (k (at d w.outcomes))) (sym p) (h w.outcomes)
  then_lem e (w, failed) k p h = p
  then_lem e (w, died) k p h = p

  pub bind_lem :
      (Q : Disk → Type 0) (r : World × Ending (Unit {0})) (k : M (Unit {0}))
      → Post Q E r
      → ((w : World) → Q w.disk → Post R E (k w))
      → Post R E (continue r (λ _. k))
  bind_lem Q (w, done a) k p h = h w p
  bind_lem Q (w, failed) k p h = p
  bind_lem Q (w, died) k p h = p

  pub handled_lem :
      (E₁ : Disk → Type 0) (r : World × Ending (Unit {0})) (h : M (Unit {0}))
      → Post R E₁ r
      → ((d : Disk) → E₁ d → E d)
      → ((w : World) → E₁ w.disk → Post E E (h w))
      → Post R E (handled r h)
  handled_lem E₁ (w, done a) h p weaker handler = p
  handled_lem E₁ (w, died) h p weaker handler = weaker w.disk p
  handled_lem E₁ (w, failed) h p weaker handler = after (h w) (handler w p)
    where
      after :
          (r : World × Ending (Unit {0})) → Post E E r → Post R E (continue r (λ _ v. (v, failed)))
      after (v, done a) q = q
      after (v, failed) q = q
      after (v, died) q = q

pub ignored_lem :
    (E : Disk → Type 0) (r : World × Ending (Unit {0})) → Post E E r → Post E E (ignored r)
ignored_lem E (w, done a) p = p
ignored_lem E (w, failed) p = p
ignored_lem E (w, died) p = p

-- A weaker statement of what a failure leaves.
pub weaken_lem :
    (Q E₁ E : Disk → Type 0) (r : World × Ending (Unit {0}))
    → ((d : Disk) → E₁ d → E d)
    → Post Q E₁ r
    → Post Q E r
weaken_lem Q E₁ E (w, done a) weaker p = p
weaken_lem Q E₁ E (w, failed) weaker p = weaker w.disk p
weaken_lem Q E₁ E (w, died) weaker p = weaker w.disk p
