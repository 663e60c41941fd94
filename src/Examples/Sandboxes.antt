-- ===== src/Examples/Sandboxes.antt =====
-- Streams of commands and containers, and the theorems on them.
use forge_engine.Prelude.{
  ◌≡◌, refl, true, false, some, none, List, [], ◌∷◌, bytes, arith, has_prefix,
}
use forge_engine.Workspace.Driver.{stdout, stderr, exit}
use forge_engine.Workspace.Exec.{fold_events, stream_event, no_output}
use forge_engine.Workspace.Frames.{drained, expired, execute_events}
use forge_engine.Workspace.Demux.{Frame, encode_all, execute_events-Collects}
use forge_engine.Workspace.Deadlines.{SameEnd, deadline_unreported}
use forge_engine.Workspace.Docker.{removed, workspace_volume, destroy_sandbox}
use forge_engine.Workspace.Volumes.{removes_volume, destroy_sandbox-KeepsVolume}

abbrev frames : List Frame
frames =
    record { is_err = false; payload = bytes "ok " }
    ∷ record { is_err = true; payload = bytes "warn" }
    ∷ record { is_err = false; payload = [] }
    ∷ record { is_err = false; payload = bytes "done" }
    ∷ []

-- The frames give their events, and the exit code.
frames_events :
    execute_events drained (some (false, 3)) (encode_all frames)
    ≡ stdout (bytes "ok ") ∷ stderr (bytes "warn") ∷ stdout (bytes "done") ∷ exit (some 3) ∷ []
unfolding execute_events
frames_events = refl

-- A frame that breaks off gives what there is of it.
broken_frame :
    execute_events drained none (1 ∷ 0 ∷ 0 ∷ 0 ∷ 0 ∷ 0 ∷ 0 ∷ 9 ∷ bytes "abc")
    ≡ stdout (bytes "abc") ∷ []
unfolding execute_events
broken_frame = refl

-- Two frames of output and one of errors, collected.
execute_events-Collects_example :
    fold_events stream_event
      (execute_events drained (some (false, 3)) (encode_all frames))
      no_output
    ≡ record {
      exit_code = some 3;
      stdout = bytes "ok done";
      stderr = bytes "warn";
      timed_out = false;
    }
execute_events-Collects_example =
    execute_events-Collects frames 3 no_output
      (omega arith, (omega arith, (omega arith, (omega arith, tt))))

-- A command with output that outlives its deadline.
deadline_unreported_example :
    SameEnd
      (fold_events stream_event
        (execute_events (expired 2) (some (true, 0)) (encode_all frames))
        no_output)
      no_output
deadline_unreported_example = deadline_unreported 2 0 (encode_all frames) no_output

-- The container of a workspace is destroyed, and the volume of the workspace stays.
destroy_sandbox-KeepsVolume_example :
    removes_volume
      (workspace_volume (bytes "0a1b2c3d-4e5f"))
      (destroy_sandbox (some (bytes "/forge-ws-0a1b2c3d")) removed (bytes "c1")).0
    ≡ false
unfolding has_prefix
destroy_sandbox-KeepsVolume_example =
    destroy_sandbox-KeepsVolume (bytes "0a1b2c3d-4e5f") (bytes "forge-ws-0a1b2c3d") (bytes "c1")
      removed refl
