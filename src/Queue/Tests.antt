-- ===== src/Queue/Tests.antt =====
-- Runs of the deletion queue.
use backend_wrf.Base.{◌≡◌, refl, string_eq, true, false, [], ◌∷◌}
use backend_wrf.Queue.{
  submit, queued, position, is_queued, remove, start, next, submitted, finished, IsSound,
  QueueSteps-IsSound, position-submit,
}

first_in : submit true "t1" [] ≡ queued ("t1" ∷ [])
unfolding submit is_queued
first_in = refl

second_in : submit true "t2" ("t1" ∷ []) ≡ queued ("t1" ∷ "t2" ∷ [])
unfolding submit is_queued
second_in = refl

first_out : "t2" ∷ [] ≡ remove "t1" ("t1" ∷ "t2" ∷ [])
unfolding remove
first_out = refl

QueueSteps-IsSound_example : IsSound ("t2" ∷ [])
QueueSteps-IsSound_example = QueueSteps-IsSound ("t2" ∷ []) (
    next (next (next start (submitted "t1" true first_in)) (submitted "t2" true second_in))
      (finished "t1" first_out))

new_job : is_queued "t2" ("t1" ∷ []) ≡ false
unfolding is_queued
new_job = refl

position-submit_example : position "t2" ("t1" ∷ "t2" ∷ []) ≡ 1
position-submit_example = position-submit "t2" true ("t1" ∷ []) ("t1" ∷ "t2" ∷ []) new_job second_in
