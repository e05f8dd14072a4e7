-- ===== src/Instances/Tests.antt =====
-- Runs of the jobs of instances, and their theorems at concrete inputs.
use spark_controlplane.Prelude.{
  ℕ, ◌≡◌, ◌≢◌, ◌⊎◌, refl, String, Option, true, none, some, [], ◌∷◌, map,
}
use spark_controlplane.Portal.{
  Managed, Failure, gets, lift, or_raise, ◌>>=◌, ◌>>◌, raise_if, modify, attempt, finally, find_row,
  change_row, ok, err,
}
use spark_controlplane.Models.{InstStatus, stopped, running}
use spark_controlplane.Portal.Samples.{portal, fine, broken}
use spark_controlplane.Instances.Lifecycle.{start_instance, stop_instance, delete_instance}
use spark_controlplane.Instances.Start.{Claimed}
use spark_controlplane.Instances.Outcome.{Untouched, start_instance-Ended}
use spark_controlplane.Instances.Halt.{stop_instance-Ended}
use spark_controlplane.Instances.Removal.{Removed, delete_instance-Removed}

abbrev glance : Managed → InstStatus × Option String × Option ℕ × Option ℕ
glance m = (m.inst.status, m.tool_parser, m.tensor_parallel_size, m.last_load_seconds)

-- A start that ends green: the row runs, with the parser and the size filled in.
green_start :
    let end = start_instance fine 7 2 portal in
    (end.0 ≡ ok true)
    × (map glance end.1.rows
        ≡ (running, none, none, none) ∷ (running, some "hermes", some 1, some 6) ∷ [])
unfolding start_instance ◌>>=◌ gets or_raise ◌>>◌ raise_if modify attempt finally change_row lift
green_start = (refl, refl)

blue_known : find_row 1 portal.rows ≢ none
unfolding find_row
blue_known e = cc

start_instance-Ended_example :
    let end = start_instance broken 7 2 portal in
    Untouched 2 portal end.1
    × (((e : Failure) × (end.0 ≡ err e) × (end.1.rows ≡ portal.rows))
        ⊎ Claimed broken 2 end.0 end.1)
start_instance-Ended_example = start_instance-Ended broken 2 7 portal

stop_instance-Ended_example :
    let end = stop_instance fine 7 1 portal in
    Untouched 1 portal end.1
    × (((e : Failure) × (end.0 ≡ err e) × (end.1.rows ≡ portal.rows))
        ⊎ ((end.0 ≡ ok tt)
            × (m : Managed) × (find_row 1 end.1.rows ≡ some m)
            × (m.inst.status ≡ stopped)
            × (m.inst.started_at ≡ none)))
stop_instance-Ended_example = stop_instance-Ended fine 1 7 portal

delete_instance-Removed_example :
    ((delete_instance broken 1 portal).0 ≡ ok tt)
    × Removed 1 portal (delete_instance broken 1 portal).1
delete_instance-Removed_example = delete_instance-Removed broken 1 portal blue_known
