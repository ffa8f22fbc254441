-- ===== src/Command/Selection.antt =====
-- The worker that a module exposes.
use tay.Prelude.{
  ℕ, ◌≡◌, ◌↔◌, ◌⊎◌, refl, sym, ap, ◌∙◌, true, List, [], ◌∷◌, ◌==◌, arith, Bool-cases, inl, inr,
  ==_iff,
}
use tay.Prelude.Outcome.{ok}
use tay.Command.{Member, instance_of, unrelated, without, candidates, only}

abbrev pub Has : ℕ → List Member → Type 0
Has i [] = ⊥
Has i (m ∷ ms) = (m ≡ instance_of i) ⊎ Has i ms

-- Every worker among the values is that one.
abbrev pub Only : ℕ → List Member → Type 0
Only i [] = Unit
Only i (m ∷ ms) = ((m ≡ unrelated) ⊎ (m ≡ instance_of i)) × Only i ms

only_lem : (is : List ℕ) (i : ℕ) → only is ≡ ok i → is ≡ i ∷ []
unfolding only
only_lem [] i h = cc
only_lem (j ∷ []) i h = ground arith
only_lem (j ∷ k ∷ ks) i h = cc

without_twice : (i : ℕ) (is : List ℕ) → without i (without i is) ≡ without i is
unfolding without
without_twice i [] = refl
without_twice i (j ∷ is) = elim (Bool-cases (i == j)) [
  | inl e ↦ rw e (without_twice i is)
  | inr e ↦ rw (e, e) (ap (λ (t : List ℕ). j ∷ t) (without_twice i is))
]

without_both : (i j : ℕ) (is : List ℕ) → i ≡ j → without i (without j is) ≡ without i is
without_both i j is e = ap (λ (k : ℕ). without i (without k is)) (sym e) ∙ without_twice i is

same_instance : (i j : ℕ) → instance_of i ≡ instance_of j → i ≡ j
same_instance i j h = cc

-- Taking one object away leaves nothing if and only if there was no other.
Only-nil : (i : ℕ) (ms : List Member) → without i (candidates ms) ≡ [] → Only i ms
unfolding candidates
Only-nil i [] h = tt
Only-nil i (unrelated ∷ ms) h = (inl refl, Only-nil i ms h)
Only-nil i (instance_of j ∷ ms) h = elim (Bool-cases (i == j)) [
  | inl e ↦
      let q : i ≡ j = (==_iff i j).0 e in
      let none_left : without i (without j (candidates ms)) ≡ [] = unfold without in rw e at h in
      (
        inr (ap instance_of (sym q)),
        Only-nil i ms (sym (without_both i j (candidates ms) q) ∙ none_left),
      )
  | inr e ↦ absurd (kept (unfold without in rw e at h))
]
  where
    kept : {t : List ℕ} → ¬ (j ∷ t ≡ [])
    kept q = cc

nil-Only : (i : ℕ) (ms : List Member) → Only i ms → without i (candidates ms) ≡ []
unfolding candidates
nil-Only i [] h = unfold without in refl
nil-Only i (unrelated ∷ ms) h = nil-Only i ms h.1
nil-Only i (instance_of j ∷ ms) (inl q, h) = cc
nil-Only i (instance_of j ∷ ms) (inr q, h) =
    let e = same_instance j i q in
    let t : (i == j) ≡ true = (==_iff i j).1 (sym e) in
    unfold without in rw t (without_both i j (candidates ms) (sym e) ∙ nil-Only i ms h)

selects : (i : ℕ) (ms : List Member) → candidates ms ≡ i ∷ [] → Has i ms × Only i ms
unfolding candidates
selects i [] h = cc
selects i (unrelated ∷ ms) h = let (has, alone) = selects i ms h in (inr has, (inl refl, alone))
selects i (instance_of j ∷ ms) h =
    let e : j ≡ i = cc in
    let left : without j (candidates ms) ≡ [] = cc in
    (inl (ap instance_of e), (inr (ap instance_of e), Only-nil i ms (rw e at left)))

selected_one : (i : ℕ) (ms : List Member) → Has i ms → Only i ms → candidates ms ≡ i ∷ []
unfolding candidates
selected_one i [] h a = absurd h
selected_one i (unrelated ∷ ms) (inl q) a = cc
selected_one i (unrelated ∷ ms) (inr h) a = selected_one i ms h a.1
selected_one i (instance_of j ∷ ms) h (inl q, a) = cc
selected_one i (instance_of j ∷ ms) h (inr q, a) =
    let e = same_instance j i q in rw e (ap (λ (t : List ℕ). i ∷ t) (nil-Only i ms a))

-- A module named without an attribute gives a worker exactly when the worker is one of its values and
-- no other worker is, under however many names the worker stands.
pub only_exact : (i : ℕ) (ms : List Member) → (only (candidates ms) ≡ ok i) ↔ (Has i ms × Only i ms)
only_exact i ms = (
  λ h. selects i ms (only_lem (candidates ms) i h),
  λ w. rw (selected_one i ms w.0 w.1) (unfold only in refl),
)
