-- ===== src/Jpeg/Report/Readback.antt =====
-- What a handler finds after a macro with integer parameters.
use chronos_updates.Common.{ℕ, ◌*◌, ◌≤◌, ◌≡◌, refl, arith, length}
use chronos_updates.Jpeg.Report.{ErrorMgr}
use chronos_updates.Jpeg.Report.Parameters.{store_ints-above}
use chronos_updates.Jpeg.Report.Macros.{Macro, run, parameters, run-reports}

-- A macro leaves the bytes of `msg_parm` behind its parameters, the trace level and the count of
-- the warnings as they were.
run-beyond :
    (m : Macro) (err : ErrorMgr) (q : ℕ)
    → 4 * length (parameters m) ≤ q
    → ((run m err).1.msg_parm q ≡ err.msg_parm q)
      × ((run m err).1.trace_level ≡ err.trace_level)
      × ((run m err).1.num_warnings ≡ err.num_warnings)
run-beyond m err q h =
    rw (run-reports m err)
      (store_ints-above 0 (parameters m) err.msg_parm q (omega arith), refl, refl)
