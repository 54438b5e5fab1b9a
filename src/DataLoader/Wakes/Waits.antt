-- ===== src/DataLoader/Wakes/Waits.antt =====
-- Proofs on the poll of a future.
use artemis.Prelude.{
  ℕ, zero, suc, ◌<◌, ◌≡◌, refl, ap, Bool, true, some, List, [], ◌∷◌, length, get_elem?, Bool-cases,
  inl, inr, arith,
}
use artemis.DataLoader.{not_completed, DataLoader, Config, put_waker, holds_waker, poll}
use artemis.DataLoader.Wakes.Steps.{set_result-at}

module _ {W : Type 0} where
  get_elem?-put_waker-at :
      (w : W) (wakers : List W) (i : ℕ)
      → i < length wakers
      → get_elem? (put_waker i w wakers) i ≡ some w
  get_elem?-put_waker-at w [] i h = absurd (omega arith)
  get_elem?-put_waker-at w (v ∷ wakers) zero h = refl
  get_elem?-put_waker-at w (v ∷ wakers) (suc i) h = get_elem?-put_waker-at w wakers i (omega arith)

  holds_waker-get_elem? :
      (same : W → W → Bool) (w : W) (wakers : List W) (i : ℕ)
      → ((v : W) → same v w ≡ true → v ≡ w)
      → holds_waker same i w wakers ≡ true
      → get_elem? wakers i ≡ some w
  holds_waker-get_elem? same w [] i f h = cc
  holds_waker-get_elem? same w (v ∷ wakers) zero f h = ap some (f v h)
  holds_waker-get_elem? same w (v ∷ wakers) (suc i) f h = holds_waker-get_elem? same w wakers i f h

module _ {K V E W : Type 0} (config : Config K V E W) (t slot : ℕ) where
  -- A poll of a task that is not completed leaves its waker in the slot.
  pub poll-waits :
      (l : DataLoader K V E W) (w : W) (wakers : List W)
      → ((v : W) → config.same_waker v w ≡ true → v ≡ w)
      → (l.task t).result ≡ not_completed wakers
      → slot < length wakers
      → (later : List W) × (((poll config t slot w l).0.task t).result ≡ not_completed later)
        × (get_elem? later slot ≡ some w)
        × ((poll config t slot w l).0.fresh ≡ l.fresh)
  unfolding poll
  poll-waits l w wakers f e h = elim (Bool-cases (holds_waker config.same_waker slot w wakers)) [
    | inl g ↦ (
      wakers,
      rw (e, g, poll) e,
      holds_waker-get_elem? config.same_waker w wakers slot f g,
      rw (e, g, poll) refl,
    )
    | inr g ↦ (
      put_waker slot w wakers,
      rw (e, g, poll) (set_result-at config t (not_completed (put_waker slot w wakers)) l),
      get_elem?-put_waker-at w wakers slot h,
      rw (e, g, poll) refl,
    )
  ]
