-- ===== src/Camera.antt =====
-- The scripts that start the camera's program: rootfs/etc/init.d/camera and
-- rootfs/opt/camera/runCamera.sh, as lists of what they do.
pub mod Splash
use chronos_updates.Common.{ℕ, Bool, true, false, List, [], ◌∷◌, ◌++◌, if◌then◌else◌}

pub data Argument : Type 0 where
  start stop other : Argument

pub data Action : Type 0 where
  -- `killall camApp`, and camApp, which runs until it ends.
  kill_app run_app : Action
  -- `sleep 0.2s`, and `shuttingDown.data`, written to the frame buffer.
  sleep_fifth show_shutdown : Action
  -- `runCamera.sh &`.
  launch : Action
  usage : Action

-- `exitsplash`, which the shell runs at its exit if the picture is there.
abbrev pub exit_splash : Bool → List Action
exit_splash bitmap = if bitmap then sleep_fifth ∷ show_shutdown ∷ [] else []

-- runCamera.sh.
pub run_camera : Bool → List Action
run_camera bitmap = kill_app ∷ run_app ∷ exit_splash bitmap

-- The init script: its exit status, and what it does.
camera_script : Argument → ℕ × List Action
camera_script start = (0, launch ∷ [])
camera_script stop = (0, kill_app ∷ [])
camera_script other = (1, usage ∷ [])
