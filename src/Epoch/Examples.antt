-- ===== src/Epoch/Examples.antt =====
-- Two threads: one is protected while the other recycles an object and advances the epoch.
use rec_store.Prelude.{
  ℕ, ◌<◌, ◌≡◌, ◌≢◌, ◌⊎◌, refl, arith, false, Option, none, some, List, [], ◌∷◌, update,
}
use rec_store.Epoch.{System, start, Act, run, step, is_safe_to_reclaim}
use rec_store.Epoch.Safety.{recycled-Waits}
use rec_store.Epoch.Holding.{Waits}
use rec_store.Epoch.Reserve.{reserve_entry, reserve_entry_lem}

abbrev entered : List Act
entered = Act.load 0 ∷ Act.store 0 ∷ []

abbrev bumped : List Act
bumped =
    Act.collect 1
    ∷ Act.fetch 1
    ∷ Act.scan 1
    ∷ Act.scan 1
    ∷ Act.publish 1
    ∷ Act.retire 1 0
    ∷ Act.collect 1
    ∷ []

abbrev state : Option System → System
state none = start
state (some s) = s

abbrev protected_state : System
unfolding run step
protected_state = state (run 2 entered start)

abbrev later_state : System
unfolding run step
later_state = state (run 2 (Act.retire 1 64 ∷ bumped) protected_state)

recycled-Waits_example :
    Waits 1 64 (later_state.queue 1) × (is_safe_to_reclaim later_state 1 ≡ false)
unfolding run step
recycled-Waits_example =
    recycled-Waits 2 0 1 64 entered bumped protected_state later_state (omega arith) (omega arith)
      refl (omega arith) refl (refl, (refl, (refl, (refl, (refl, (refl, (refl, tt)))))))
      (omega arith)

-- Once thread 0 has left, the next round frees the object.
freed_after :
    (state (
      run 2
        (Act.un_protect 0
          ∷ Act.fetch 1
          ∷ Act.scan 1
          ∷ Act.scan 1
          ∷ Act.publish 1
          ∷ Act.retire 1 0
          ∷ Act.collect 1
          ∷ [])
        later_state)).freed
    ≡ 64 ∷ []
unfolding run step
freed_after = refl

abbrev no_ids : ℕ → ℕ
no_ids i = 0

reserve_entry_lem_example :
    ((reserve_entry 4 7 99 no_ids ≡ none) × ((x : ℕ) → x < 4 → no_ids x ≢ 0))
    ⊎ ((j : ℕ) × (j < 4)
        × (no_ids j ≡ 0)
        × (reserve_entry 4 7 99 no_ids ≡ some (j, update no_ids j 99)))
reserve_entry_lem_example = reserve_entry_lem 4 7 99 no_ids (omega arith)
