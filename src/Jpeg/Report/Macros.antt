-- ===== src/Jpeg/Report/Macros.antt =====
-- The macros with integer parameters, in one type, and what each reports.
use chronos_updates.Common.{ℕ, ◌≡◌, refl, List, [], ◌∷◌}
use chronos_updates.Common.Int.{ℤ, negsuc}
use chronos_updates.Jpeg.Report
use chronos_updates.Jpeg.Report.{ErrorMgr, Handler, error_exit, emit_message}
use chronos_updates.Jpeg.Report.Parameters.{store_ints}

pub data Macro : Type 0 where
  errexit : ℕ → Macro
  errexit1 : ℕ → ℕ → Macro
  errexit2 : ℕ → ℕ → ℕ → Macro
  errexit3 : ℕ → ℕ → ℕ → ℕ → Macro
  errexit4 : ℕ → ℕ → ℕ → ℕ → ℕ → Macro
  errexit6 : ℕ → ℕ → ℕ → ℕ → ℕ → ℕ → ℕ → Macro
  warnms : ℕ → Macro
  warnms1 : ℕ → ℕ → Macro
  warnms2 : ℕ → ℕ → ℕ → Macro
  tracems : ℤ → ℕ → Macro
  tracems1 : ℤ → ℕ → ℕ → Macro
  tracems2 : ℤ → ℕ → ℕ → ℕ → Macro
  tracems3 : ℤ → ℕ → ℕ → ℕ → ℕ → Macro
  tracems4 : ℤ → ℕ → ℕ → ℕ → ℕ → ℕ → Macro
  tracems5 : ℤ → ℕ → ℕ → ℕ → ℕ → ℕ → ℕ → Macro
  tracems8 : ℤ → ℕ → ℕ → ℕ → ℕ → ℕ → ℕ → ℕ → ℕ → ℕ → Macro

pub run : Macro → ErrorMgr → Handler × ErrorMgr
unfolding Report.errexit Report.errexit1 Report.errexit2 Report.errexit3 Report.errexit4
    Report.errexit6 Report.warnms Report.warnms1 Report.warnms2 Report.tracems Report.tracems1
    Report.tracems2 Report.tracems3 Report.tracems4 Report.tracems5 Report.tracems8
run (errexit code) err = Report.errexit err code
run (errexit1 code p1) err = Report.errexit1 err code p1
run (errexit2 code p1 p2) err = Report.errexit2 err code p1 p2
run (errexit3 code p1 p2 p3) err = Report.errexit3 err code p1 p2 p3
run (errexit4 code p1 p2 p3 p4) err = Report.errexit4 err code p1 p2 p3 p4
run (errexit6 code p1 p2 p3 p4 p5 p6) err = Report.errexit6 err code p1 p2 p3 p4 p5 p6
run (warnms code) err = Report.warnms err code
run (warnms1 code p1) err = Report.warnms1 err code p1
run (warnms2 code p1 p2) err = Report.warnms2 err code p1 p2
run (tracems lvl code) err = Report.tracems err lvl code
run (tracems1 lvl code p1) err = Report.tracems1 err lvl code p1
run (tracems2 lvl code p1 p2) err = Report.tracems2 err lvl code p1 p2
run (tracems3 lvl code p1 p2 p3) err = Report.tracems3 err lvl code p1 p2 p3
run (tracems4 lvl code p1 p2 p3 p4) err = Report.tracems4 err lvl code p1 p2 p3 p4
run (tracems5 lvl code p1 p2 p3 p4 p5) err = Report.tracems5 err lvl code p1 p2 p3 p4 p5
run (tracems8 lvl code p1 p2 p3 p4 p5 p6 p7 p8) err =
    Report.tracems8 err lvl code p1 p2 p3 p4 p5 p6 p7 p8

pub handler_of : Macro → Handler
handler_of (errexit _) = error_exit
handler_of (errexit1 _ _) = error_exit
handler_of (errexit2 _ _ _) = error_exit
handler_of (errexit3 _ _ _ _) = error_exit
handler_of (errexit4 _ _ _ _ _) = error_exit
handler_of (errexit6 _ _ _ _ _ _ _) = error_exit
handler_of (warnms _) = emit_message (negsuc 0)
handler_of (warnms1 _ _) = emit_message (negsuc 0)
handler_of (warnms2 _ _ _) = emit_message (negsuc 0)
handler_of (tracems lvl _) = emit_message lvl
handler_of (tracems1 lvl _ _) = emit_message lvl
handler_of (tracems2 lvl _ _ _) = emit_message lvl
handler_of (tracems3 lvl _ _ _ _) = emit_message lvl
handler_of (tracems4 lvl _ _ _ _ _) = emit_message lvl
handler_of (tracems5 lvl _ _ _ _ _ _) = emit_message lvl
handler_of (tracems8 lvl _ _ _ _ _ _ _ _ _) = emit_message lvl

pub code_of : Macro → ℕ
code_of (errexit code) = code
code_of (errexit1 code _) = code
code_of (errexit2 code _ _) = code
code_of (errexit3 code _ _ _) = code
code_of (errexit4 code _ _ _ _) = code
code_of (errexit6 code _ _ _ _ _ _) = code
code_of (warnms code) = code
code_of (warnms1 code _) = code
code_of (warnms2 code _ _) = code
code_of (tracems _ code) = code
code_of (tracems1 _ code _) = code
code_of (tracems2 _ code _ _) = code
code_of (tracems3 _ code _ _ _) = code
code_of (tracems4 _ code _ _ _ _) = code
code_of (tracems5 _ code _ _ _ _ _) = code
code_of (tracems8 _ code _ _ _ _ _ _ _ _) = code

unfoldable pub parameters : Macro → List ℕ
parameters (errexit _) = []
parameters (errexit1 _ p1) = p1 ∷ []
parameters (errexit2 _ p1 p2) = p1 ∷ p2 ∷ []
parameters (errexit3 _ p1 p2 p3) = p1 ∷ p2 ∷ p3 ∷ []
parameters (errexit4 _ p1 p2 p3 p4) = p1 ∷ p2 ∷ p3 ∷ p4 ∷ []
parameters (errexit6 _ p1 p2 p3 p4 p5 p6) = p1 ∷ p2 ∷ p3 ∷ p4 ∷ p5 ∷ p6 ∷ []
parameters (warnms _) = []
parameters (warnms1 _ p1) = p1 ∷ []
parameters (warnms2 _ p1 p2) = p1 ∷ p2 ∷ []
parameters (tracems _ _) = []
parameters (tracems1 _ _ p1) = p1 ∷ []
parameters (tracems2 _ _ p1 p2) = p1 ∷ p2 ∷ []
parameters (tracems3 _ _ p1 p2 p3) = p1 ∷ p2 ∷ p3 ∷ []
parameters (tracems4 _ _ p1 p2 p3 p4) = p1 ∷ p2 ∷ p3 ∷ p4 ∷ []
parameters (tracems5 _ _ p1 p2 p3 p4 p5) = p1 ∷ p2 ∷ p3 ∷ p4 ∷ p5 ∷ []
parameters (tracems8 _ _ p1 p2 p3 p4 p5 p6 p7 p8) = p1 ∷ p2 ∷ p3 ∷ p4 ∷ p5 ∷ p6 ∷ p7 ∷ p8 ∷ []

-- A macro calls its handler with its code stored, and its parameters from the first place on.
pub run-reports :
    (m : Macro) (err : ErrorMgr)
    → run m err ≡ (
      handler_of m,
      record err { msg_code = code_of m; msg_parm = store_ints 0 (parameters m) err.msg_parm },
    )
unfolding run handler_of code_of parameters store_ints
run-reports (errexit code) err = refl
run-reports _ err = refl
