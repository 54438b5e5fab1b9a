-- ===== src/DataLoader/Batches.antt =====
-- dataloader/dataloader.go: the batches into which a queue is split.
use artemis.Prelude.{
  ℕ, suc, ◌+◌, ◌-◌, ◌≤◌, ◌≡◌, ap, ◌∙◌, ◌==◌, if◌then◌else◌, List, [], ◌∷◌, ◌++◌, ◌⊎◌, append_assoc,
  append-nil, length, length-append, Bool-cases, inl, inr, arith,
}

module _ {A : Type 0} where
  -- The loop with the tasks since firstTask in `batch`. A counter is never 0 at the start of a round.
  unfoldable pub batch_loop : ℕ → ℕ → List A → List A → List (List A)
  batch_loop max counter batch [] = []
  batch_loop max counter batch (t ∷ []) = (batch ++ (t ∷ [])) ∷ []
  batch_loop max counter batch (t ∷ u ∷ rest) =
      let next = batch_loop max max [] (u ∷ rest) in
      let same = batch_loop max (counter - 1) (batch ++ (t ∷ [])) (u ∷ rest) in
      if counter - 1 == 0 then (batch ++ (t ∷ [])) ∷ next else same

  -- The batches of dispatchQueue; a size of 0 is no limit.
  unfoldable pub batches : ℕ → List A → List (List A)
  unfolding batch_loop
  batches max tasks = if max == 0 then tasks ∷ [] else batch_loop max max [] tasks

  abbrev pub concat : List (List A) → List A
  concat [] = []
  concat (batch ∷ rest) = batch ++ concat rest

  -- Every batch has `max` tasks, but the last may have fewer; none is empty.
  abbrev pub AreSized : ℕ → List (List A) → Type 0
  AreSized max [] = Unit
  AreSized max (batch ∷ []) = (1 ≤ length batch) × (length batch ≤ max)
  AreSized max (batch ∷ next ∷ rest) = (length batch ≡ max) × AreSized max (next ∷ rest)

  batch_loop-concat :
      (max counter : ℕ) (batch tasks : List A)
      → 1 ≤ length tasks
      → concat (batch_loop max counter batch tasks) ≡ batch ++ tasks
  unfolding batch_loop
  batch_loop-concat max counter batch [] h = absurd (omega arith)
  batch_loop-concat max counter batch (t ∷ []) h = append-nil (batch ++ (t ∷ []))
  batch_loop-concat max counter batch (t ∷ u ∷ rest) h = elim (Bool-cases (counter - 1 == 0)) [
    | inl e ↦ rw e (
        ap (λ z. (batch ++ (t ∷ [])) ++ z) (batch_loop-concat max max [] (u ∷ rest) (omega arith))
        ∙ append_assoc batch (t ∷ []) (u ∷ rest))
    | inr e ↦ rw e (
        batch_loop-concat max (counter - 1) (batch ++ (t ∷ [])) (u ∷ rest) (omega arith)
        ∙ append_assoc batch (t ∷ []) (u ∷ rest))
  ]

  AreSized-cons :
      (max : ℕ) (batch : List A) (rest : List (List A))
      → length batch ≡ max
      → 1 ≤ max
      → AreSized max rest
      → AreSized max (batch ∷ rest)
  AreSized-cons max batch [] e m h = (omega arith, omega arith)
  AreSized-cons max batch (next ∷ rest) e m h = (e, h)

  batch_loop-AreSized :
      (max counter : ℕ) (batch tasks : List A)
      → 1 ≤ counter
      → length batch + counter ≡ max
      → 1 ≤ length tasks
      → AreSized max (batch_loop max counter batch tasks)
  unfolding batch_loop
  batch_loop-AreSized max counter batch [] c e h = absurd (omega arith)
  batch_loop-AreSized max counter batch (t ∷ []) c e h =
      (omega (arith, length-append batch (t ∷ [])), omega (arith, length-append batch (t ∷ [])))
  batch_loop-AreSized max counter batch (t ∷ u ∷ rest) c e h =
      let l : length (batch ++ (t ∷ [])) ≡ suc (length batch) =
        omega (arith, length-append batch (t ∷ [])) in
      elim (Bool-cases (counter - 1 == 0)) [
        | inl f ↦
            let one : counter ≡ 1 = ground arith in
            rw f (
              AreSized-cons max (batch ++ (t ∷ [])) (batch_loop max max [] (u ∷ rest)) (omega arith)
                (omega arith)
                (batch_loop-AreSized max max [] (u ∷ rest) (omega arith) (omega arith)
                  (omega arith)))
        | inr f ↦
            let more : 2 ≤ counter = ground arith in
            rw f (
              batch_loop-AreSized max (counter - 1) (batch ++ (t ∷ [])) (u ∷ rest) (omega arith)
                (omega arith) (omega arith))
      ]

  -- The batches of a queue that has tasks are, one after the other, the queue. With a limit, they all
  -- have the limit's number of tasks, but the last, which may have fewer, and none is empty.
  pub batches-AreSized :
      (max : ℕ) (tasks : List A)
      → 1 ≤ length tasks
      → (concat (batches max tasks) ≡ tasks) × (max ≡ 0 ⊎ AreSized max (batches max tasks))
  unfolding batches
  batches-AreSized max tasks h = elim (Bool-cases (max == 0)) [
    | inl e ↦ rw e (append-nil tasks, inl (ground arith))
    | inr e ↦ rw e (
      batch_loop-concat max max [] tasks h,
      inr (batch_loop-AreSized max max [] tasks (ground arith) (omega arith) h),
    )
  ]
