-- ===== src/Jpeg/Report.antt =====
-- The reporting macros of rootfs/usr/include/jerror.h, over the public state of
-- `struct jpeg_error_mgr` (rootfs/usr/include/jpeglib.h). A macro stores the message's code and
-- parameters and calls a handler, which is the application's: it is returned with the state that
-- it finds. The union `msg_parm` is its 80 bytes; an `int` is four of them, the lowest first.
pub mod Parameters
pub mod Macros
pub mod Readback
pub mod Text
use Prim.Native.Nat.{ℕ, zero, suc, ◌+◌, ◌*◌, ◌/◌, ◌%◌}
use chronos_updates.Common.{String, List, [], ◌∷◌, ltb, ◌==◌, if◌then◌else◌}
use chronos_updates.Common.Int.{ℤ, pos, negsuc}

-- The bytes of `msg_parm`, by offset.
abbrev pub Parm : Type 0
Parm = ℕ → ℕ

abbrev pub msg_str_parm_max : ℕ
msg_str_parm_max = 80

-- `struct jpeg_error_mgr`, without its methods.
pub record ErrorMgr : Type 0 where
  pub msg_code : ℕ
  pub msg_parm : Parm
  pub trace_level : ℕ
  pub num_warnings : ℕ
  pub jpeg_message_table : List String
  pub last_jpeg_message : ℕ
  pub addon_message_table : List String
  pub first_addon_message : ℕ
  pub last_addon_message : ℕ

-- The method that a macro calls, `emit_message` with its level.
pub data Handler : Type 0 where
  error_exit : Handler
  emit_message : ℤ → Handler

-- `msg_parm.i[k] = p`.
pub set_int : ℕ → ℕ → Parm → Parm
set_int k p f q =
    if q == 4 * k
    then p % 256
    else if q == 4 * k + 1
    then p / 256 % 256
    else if q == 4 * k + 2
    then p / 65536 % 256
    else if q == 4 * k + 3
    then p / 16777216 % 256
    else f q

-- Byte `q` of a text, 0 from its end on.
pub byte_or_nul : List ℕ → ℕ → ℕ
byte_or_nul [] q = 0
byte_or_nul (c ∷ cs) zero = c
byte_or_nul (c ∷ cs) (suc q) = byte_or_nul cs q

-- `strncpy(msg_parm.s, str, n)`.
pub strncpy : List ℕ → ℕ → Parm → Parm
strncpy str n f q = if ltb q n then byte_or_nul str q else f q

unfoldable set_code : ℕ → ErrorMgr → ErrorMgr
set_code code err = record err { msg_code = code }

unfoldable set_parm : ℕ → ℕ → ErrorMgr → ErrorMgr
set_parm k p err = record err { msg_parm = set_int k p err.msg_parm }

unfoldable set_text : List ℕ → ErrorMgr → ErrorMgr
set_text str err = record err { msg_parm = strncpy str msg_str_parm_max err.msg_parm }

pub errexit : ErrorMgr → ℕ → Handler × ErrorMgr
unfolding set_code set_parm
errexit err code = (error_exit, set_code code err)

pub errexit1 : ErrorMgr → ℕ → ℕ → Handler × ErrorMgr
unfolding set_code set_parm
errexit1 err code p1 = (error_exit, set_parm 0 p1 (set_code code err))

pub errexit2 : ErrorMgr → ℕ → ℕ → ℕ → Handler × ErrorMgr
unfolding set_code set_parm
errexit2 err code p1 p2 = (error_exit, set_parm 1 p2 (set_parm 0 p1 (set_code code err)))

pub errexit3 : ErrorMgr → ℕ → ℕ → ℕ → ℕ → Handler × ErrorMgr
unfolding set_code set_parm
errexit3 err code p1 p2 p3 =
    (error_exit, set_parm 2 p3 (set_parm 1 p2 (set_parm 0 p1 (set_code code err))))

pub errexit4 : ErrorMgr → ℕ → ℕ → ℕ → ℕ → ℕ → Handler × ErrorMgr
unfolding set_code set_parm
errexit4 err code p1 p2 p3 p4 =
    (error_exit, set_parm 3 p4 (set_parm 2 p3 (set_parm 1 p2 (set_parm 0 p1 (set_code code err)))))

pub errexit6 : ErrorMgr → ℕ → ℕ → ℕ → ℕ → ℕ → ℕ → ℕ → Handler × ErrorMgr
unfolding set_code set_parm
errexit6 err code p1 p2 p3 p4 p5 p6 = (
  error_exit,
  set_parm 5 p6 (
      set_parm 4 p5
        (set_parm 3 p4 (set_parm 2 p3 (set_parm 1 p2 (set_parm 0 p1 (set_code code err)))))),
)

pub warnms : ErrorMgr → ℕ → Handler × ErrorMgr
unfolding set_code set_parm
warnms err code = (emit_message (negsuc 0), set_code code err)

pub warnms1 : ErrorMgr → ℕ → ℕ → Handler × ErrorMgr
unfolding set_code set_parm
warnms1 err code p1 = (emit_message (negsuc 0), set_parm 0 p1 (set_code code err))

pub warnms2 : ErrorMgr → ℕ → ℕ → ℕ → Handler × ErrorMgr
unfolding set_code set_parm
warnms2 err code p1 p2 =
    (emit_message (negsuc 0), set_parm 1 p2 (set_parm 0 p1 (set_code code err)))

pub tracems : ErrorMgr → ℤ → ℕ → Handler × ErrorMgr
unfolding set_code set_parm
tracems err lvl code = (emit_message lvl, set_code code err)

pub tracems1 : ErrorMgr → ℤ → ℕ → ℕ → Handler × ErrorMgr
unfolding set_code set_parm
tracems1 err lvl code p1 = (emit_message lvl, set_parm 0 p1 (set_code code err))

pub tracems2 : ErrorMgr → ℤ → ℕ → ℕ → ℕ → Handler × ErrorMgr
unfolding set_code set_parm
tracems2 err lvl code p1 p2 = (emit_message lvl, set_parm 1 p2 (set_parm 0 p1 (set_code code err)))

pub tracems3 : ErrorMgr → ℤ → ℕ → ℕ → ℕ → ℕ → Handler × ErrorMgr
unfolding set_code set_parm
tracems3 err lvl code p1 p2 p3 =
    (emit_message lvl, set_code code (set_parm 2 p3 (set_parm 1 p2 (set_parm 0 p1 err))))

pub tracems4 : ErrorMgr → ℤ → ℕ → ℕ → ℕ → ℕ → ℕ → Handler × ErrorMgr
unfolding set_code set_parm
tracems4 err lvl code p1 p2 p3 p4 = (
  emit_message lvl,
  set_code code (set_parm 3 p4 (set_parm 2 p3 (set_parm 1 p2 (set_parm 0 p1 err)))),
)

pub tracems5 : ErrorMgr → ℤ → ℕ → ℕ → ℕ → ℕ → ℕ → ℕ → Handler × ErrorMgr
unfolding set_code set_parm
tracems5 err lvl code p1 p2 p3 p4 p5 = (
  emit_message lvl,
  set_code code (set_parm 4 p5 (set_parm 3 p4 (set_parm 2 p3 (set_parm 1 p2 (set_parm 0 p1 err))))),
)

pub tracems8 : ErrorMgr → ℤ → ℕ → ℕ → ℕ → ℕ → ℕ → ℕ → ℕ → ℕ → ℕ → Handler × ErrorMgr
unfolding set_code set_parm
tracems8 err lvl code p1 p2 p3 p4 p5 p6 p7 p8 = (
  emit_message lvl,
  set_code code (
      set_parm 7 p8 (
        set_parm 6 p7 (
          set_parm 5 p6
            (set_parm 4 p5 (set_parm 3 p4 (set_parm 2 p3 (set_parm 1 p2 (set_parm 0 p1 err)))))))),
)

pub errexits : ErrorMgr → ℕ → List ℕ → Handler × ErrorMgr
unfolding set_code set_text
errexits err code str = (error_exit, set_text str (set_code code err))

unfoldable tracemss : ErrorMgr → ℤ → ℕ → List ℕ → Handler × ErrorMgr
unfolding set_code set_text
tracemss err lvl code str = (emit_message lvl, set_text str (set_code code err))
