-- ===== src/Worker/Retry.antt =====
-- The retries of src/migration/worker.c.
use buckets.Prelude.{ℕ, ◌≡◌, refl, ◌⊎◌, inl, inr, [], ◌∷◌}
use buckets.Status.{Result, Error, ok, err, io}
use buckets.Worker.{execute_migration_with_retry}

Result-cases : (r : Result (Unit {0})) → (r ≡ ok tt) ⊎ ((e : Error) × (r ≡ err e))
Result-cases (ok tt) = inl refl
Result-cases (err e) = inr (e, refl)

-- `execute_migration_with_retry` tries up to three times and sleeps 100 ms after the first failure
-- and 200 ms after the second; it succeeds at the first attempt that does, and after three failures
-- answers an I/O error, whatever the errors were.
pub execute_migration_with_retry_lem :
    (attempt : ℕ → Result (Unit {0}))
    → ((attempt 0 ≡ ok tt) × (execute_migration_with_retry attempt ≡ (ok tt, [])))
      ⊎ ((e : Error) × (attempt 0 ≡ err e)
          × (((attempt 1 ≡ ok tt) × (execute_migration_with_retry attempt ≡ (ok tt, 100 ∷ [])))
              ⊎ ((e' : Error) × (attempt 1 ≡ err e')
                  × (((attempt 2 ≡ ok tt)
                        × (execute_migration_with_retry attempt ≡ (ok tt, 100 ∷ 200 ∷ [])))
                      ⊎ ((e'' : Error) × (attempt 2 ≡ err e'')
                          × (execute_migration_with_retry attempt ≡ (err io, 100 ∷ 200 ∷ [])))))))
unfolding execute_migration_with_retry
execute_migration_with_retry_lem attempt = elim (Result-cases (attempt 0)) [
  | inl h ↦ inl (h, rw h refl)
  | inr (e, h) ↦ inr (
    e,
    h,
    elim (Result-cases (attempt 1)) [
      | inl h' ↦ inl (h', rw (h, h') refl)
      | inr (e', h') ↦ inr (
        e',
        h',
        elim (Result-cases (attempt 2)) [
          | inl h'' ↦ inl (h'', rw (h, h', h'') refl)
          | inr (e'', h'') ↦ inr (e'', h'', rw (h, h', h'') refl)
        ],
      )
    ],
  )
]
