-- ===== src/Events/Semaphore.antt =====
-- The named semaphore of src/utils.c that guards the shared memory. A process holds a handle; the
-- name stands for one semaphore at a time.
use thingino_onvif.Base.Int.{ℤ, pos, negsuc}
use thingino_onvif.Base.{
  ℕ, suc, ◌+◌, ◌-◌, Option, none, some, ◌==◌, ◌≡◌, ◌≢◌, arith, if◌then◌else◌, ltb, ==_refl,
}

-- The semaphores that exist by number, with their values, the number that the name stands for,
-- and the next number to be given.
pub record Kernel : Type 0 where
  pub named : Option ℕ
  pub value : ℕ → ℕ
  pub fresh : ℕ

abbrev pub put : (ℕ → ℕ) → ℕ → ℕ → ℕ → ℕ
put f k v n = if n == k then v else f n

-- `sem_open(name, O_CREAT, mode, 1)`: the semaphore of that name, or a new one of value 1.
unfoldable pub sem_memory_open : Kernel → ℕ × Kernel
sem_memory_open k = elim k.named [
  | some s ↦ (s, k)
  | none ↦
      (k.fresh, record { named = some k.fresh; value = put k.value k.fresh 1; fresh = suc k.fresh })
]

-- `sem_close` and `sem_unlink`, if a semaphore is open (`SEM_FAILED` is `none`).
unfoldable pub sem_memory_close : Option ℕ → Kernel → Option ℕ × Kernel
sem_memory_close none k = (none, k)
sem_memory_close (some s) k = (none, record k { named = none })

-- The result of `sem_wait`, as far as it returns at once, or -1 without an open semaphore; `none` says
-- that the caller blocks.
unfoldable pub sem_memory_wait : Option ℕ → Kernel → Option (ℤ × Kernel)
sem_memory_wait none k = some (negsuc 0, k)
sem_memory_wait (some s) k =
    if ltb 0 (k.value s)
    then some (pos 0, record k { value = put k.value s (k.value s - 1) })
    else none

unfoldable pub sem_memory_post : Option ℕ → Kernel → ℤ × Kernel
sem_memory_post none k = (negsuc 0, k)
sem_memory_post (some s) k = (pos 0, record k { value = put k.value s (k.value s + 1) })

-- The notify server opens the semaphore, then a request handler does: the two handles.
unfoldable pub both_open : Kernel → ℕ × ℕ × Kernel
unfolding sem_memory_open
both_open k =
    let server = sem_memory_open k in
    let handler = sem_memory_open server.1 in (server.0, handler.0, handler.1)

-- As before, but the first handler closes it when it is done, and a second handler opens it.
unfoldable pub reopened : Kernel → ℕ × ℕ × Kernel
unfolding both_open sem_memory_close
reopened k =
    let (server, first, opened) = both_open k in
    let closed = sem_memory_close (some first) opened in
    let second = sem_memory_open closed.1 in (server, second.0, second.1)

-- A kernel in which nobody has made the semaphore yet.
abbrev pub fresh_kernel : (ℕ → ℕ) → ℕ → Kernel
fresh_kernel value fresh = record { named = none; value = value; fresh = fresh }

-- When the notify server and a handler have opened the semaphore, and no handle was closed, they
-- exclude each other: once the server has taken it, the handler blocks.
pub sem_memory_wait-both_open :
    (value : ℕ → ℕ) (fresh : ℕ) (k : Kernel)
    → sem_memory_wait
        (some (both_open (fresh_kernel value fresh)).0)
        (both_open (fresh_kernel value fresh)).2
      ≡ some (pos 0, k)
    → sem_memory_wait (some (both_open (fresh_kernel value fresh)).1) k ≡ none
unfolding both_open sem_memory_wait
sem_memory_wait-both_open value fresh k h = ground (arith, ==_refl fresh)

-- Once a handler has closed its handle, which also unlinks the name, the next handler has another
-- semaphore than the notify server, and both are let in at the same time.
pub sem_memory_wait-reopened :
    (value : ℕ → ℕ) (fresh : ℕ)
    → ((reopened (fresh_kernel value fresh)).0 ≢ (reopened (fresh_kernel value fresh)).1)
      × ((k : Kernel) × (k' : Kernel) × (sem_memory_wait
              (some (reopened (fresh_kernel value fresh)).0)
              (reopened (fresh_kernel value fresh)).2
            ≡ some (pos 0, k))
          × (sem_memory_wait (some (reopened (fresh_kernel value fresh)).1) k ≡ some (pos 0, k')))
unfolding reopened sem_memory_wait
sem_memory_wait-reopened value fresh =
    let both = put (put value fresh 1) (suc fresh) 1 in
    let server = put both fresh (both fresh - 1) in
    (
      λ e. absurd (omega arith),
      (
        record { named = some (suc fresh); value = server; fresh = suc (suc fresh) },
        record {
          named = some (suc fresh);
          value = put server (suc fresh) (server (suc fresh) - 1);
          fresh = suc (suc fresh);
        },
        ground (arith, ==_refl fresh),
        ground (arith, ==_refl fresh),
      ),
    )
