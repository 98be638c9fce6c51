-- ===== src/Clients/DefaultConnection/Destroyed.antt =====
-- The destructor of a connection: when it returns, and what it leaves to the futures.
use logsvc.Common.{
  ℕ, ◌+◌, ◌≤◌, ◌<◌, ◌≡◌, refl, ap, Bool, true, false, inl, inr, Option, none, some, List, [], ◌∷◌,
  if◌then◌else◌, arith, Bool-cases,
}
use logsvc.Common.Text.{Bytes}
use logsvc.Clients.DefaultConnection.{
  DefaultConnection, destroy, join_threads, end_thread, break_promise, drop_promise, new_promise,
}

-- The threads that wait for the mutex.
abbrev pub blocked : (ℕ → Bool) → List (ℕ × Bytes) → ℕ
blocked had_tested [] = 0
blocked had_tested (t ∷ threads) = (if had_tested t.0 then 1 else 0) + blocked had_tested threads

-- The threads that can get the mutex, which nobody unlocks any more.
abbrev pub room : DefaultConnection → ℕ
room s = if s.mutex_locked then 0 else 1

abbrev pub Returns : Option DefaultConnection → Type 0
Returns r = (after : DefaultConnection) × (r ≡ some after)

-- A thread that has not tested the socket leaves the room as it is; another takes a place.
end_thread-returns :
    (had_tested : Bool) (number : ℕ) (s : DefaultConnection)
    → (if had_tested then 1 else 0) ≤ room s
    → (after : DefaultConnection) × (end_thread had_tested number s ≡ some after)
      × (room s ≡ (if had_tested then 1 else 0) + room after)
unfolding end_thread break_promise
end_thread-returns false number s h = (_, refl, omega arith)
end_thread-returns true number s h = elim (Bool-cases s.mutex_locked) [
  | inl locked ↦ absurd (ground arith)
  | inr free ↦
      (record s { mutex_locked = true; current_promise = new_promise number }, rw free, rw free)
]

end_thread-hangs :
    (number : ℕ) (s : DefaultConnection) → room s ≡ 0 → end_thread true number s ≡ none
unfolding end_thread
end_thread-hangs number s h = elim (Bool-cases s.mutex_locked) [
  | inl locked ↦ rw locked
  | inr free ↦ absurd (ground arith)
]

-- A result that is there exactly where no more threads wait for the mutex than can get it.
abbrev pub ReturnsWithin : ℕ → ℕ → Option DefaultConnection → Type 0
ReturnsWithin waiters places r = (waiters ≤ places → Returns r) × (places < waiters → r ≡ none)

join_threads_lem :
    (had_tested : ℕ → Bool) (threads : List (ℕ × Bytes)) (s : DefaultConnection)
    → ReturnsWithin (blocked had_tested threads) (room s) (join_threads had_tested threads (some s))
unfolding join_threads
join_threads_lem had_tested [] s = (λ h. (s, refl), λ h. absurd (omega arith))
join_threads_lem had_tested (t ∷ threads) s =
    by_test (had_tested t.0) (λ u. join_threads_lem had_tested threads u)
  where
    passed :
        (b : Bool) (u : DefaultConnection)
        → end_thread b t.0 s ≡ some u
        → room s ≡ (if b then 1 else 0) + room u
        → ReturnsWithin
            (blocked had_tested threads)
            (room u)
            (join_threads had_tested threads (some u))
        → ReturnsWithin
            ((if b then 1 else 0) + blocked had_tested threads)
            (room s)
            (join_threads had_tested threads (end_thread b t.0 s))
    passed b u e q h = (
      λ k. let r = h.0 (omega (arith, q, k)) in (r.0, rw (e, r.1)),
      λ k. rw (e, h.1 (omega (arith, q, k))),
    )

    by_test :
        (b : Bool)
        → ((u : DefaultConnection)
            → ReturnsWithin
                (blocked had_tested threads)
                (room u)
                (join_threads had_tested threads (some u)))
        → ReturnsWithin
            ((if b then 1 else 0) + blocked had_tested threads)
            (room s)
            (join_threads had_tested threads (end_thread b t.0 s))
    by_test false h =
        let u = end_thread-returns false t.0 s (omega arith) in passed false u.0 u.1 u.2 (h u.0)
    by_test true h = elim (Bool-cases s.mutex_locked) [
      | inl locked ↦
          let full : room s ≡ 0 = rw locked in
          (λ k. absurd (omega (arith, full, k)), λ k. rw (end_thread-hangs t.0 s full))
      | inr free ↦
          let one : room s ≡ 1 = rw free in
          let u = end_thread-returns true t.0 s (omega (arith, one)) in
          passed true u.0 u.1 u.2 (h u.0)
    ]

-- The destructor returns exactly where at most one of the threads that wait had tested the socket
-- before it was reset, and none if a request is under way; if not, it waits for ever.
pub destroy_lem :
    (had_tested : ℕ → Bool) (s : DefaultConnection)
    → ReturnsWithin (blocked had_tested s.waiting) (room s) (destroy had_tested s)
unfolding destroy drop_promise
destroy_lem had_tested s =
    let joined = join_threads_lem had_tested s.waiting (record s { calls = [] }) in
    (λ h. let r = joined.0 h in (_, ap drop_promise r.1), λ h. ap drop_promise (joined.1 h))
