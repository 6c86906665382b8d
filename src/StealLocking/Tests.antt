-- ===== src/StealLocking/Tests.antt =====
-- src/fev_sched_steal_locking.c: worker 0 of three steals two fibers from worker 2.
use libfev.Base.{ℕ, ◌≡◌, ◌==◌, refl, arith, if◌then◌else◌, [], ◌∷◌}
use libfev.StealLocking.{RunQueue, steal}
use libfev.StealLocking.Moves.{IsCounted, Stolen, steal_lem}

abbrev queues : ℕ → RunQueue
queues i =
    if i == 2 then record { head = 7 ∷ 8 ∷ 9 ∷ []; size = 3 } else record { head = []; size = 0 }

steal_test : ((steal 2 3 3 0 queues).0 0).head ≡ 7 ∷ 8 ∷ []
unfolding steal
steal_test = refl

queues-IsCounted : (j : ℕ) → IsCounted (queues j)
queues-IsCounted j = ground arith

steal_lem_example : Stolen 2 3 3 0 3 0 queues (steal 2 3 3 0 queues)
steal_lem_example = steal_lem 2 3 3 0 queues (omega arith) queues-IsCounted
