-- ===== src/Checks/Requests.antt =====
-- The client wrappers of rootfs/usr/include/dbus-1.0/dbus/dbus-glib-bindings.h against a small bus.
use chronos_updates.Common.{
  ℕ, ◌+◌, ◌≡◌, refl, none, some, [], ◌∷◌, arith, ◌>>=◌, ◌==◌, if◌then◌else◌,
}
use chronos_updates.DBus.Glib.{number, DBusGlib, Reply, returned, failed, settle}
use chronos_updates.DBus.Client.{AsyncData, Session, Invocation, complete}
use chronos_updates.DBus.Requests.{hello, request_name, get_name_owner, blocking, asynchronous}
use chronos_updates.DBus.Requests.Laws.{blocking-call}
use chronos_updates.DBus.Requests.Delivery.{async_delivers_blocking, skip_slice}
use chronos_updates.DBus.Requests.Overlap.{overlapped, overlapping_requests}

-- A bus that numbers its calls: the first one fails, the others return their number.
answer : ℕ → Reply ℕ
answer c = if c == 0 then failed 5 [] else returned (number c ∷ [])

abbrev small_bus : DBusGlib
small_bus = record {
  World = ℕ;
  Proxy = ℕ;
  Failure = ℕ;
  CallId = ℕ;
  call = λ w p m vs ts. (answer w, w + 1);
  begin_call = λ w p m vs. (w, w + 1);
  end_call = λ w p c ts. (answer c, w);
  call_is_begin_end = λ w p m vs ts. refl;
}

abbrev start : Session small_bus
start = record { world = 0; slices = record { next = 0; cell = λ q. none } }

abbrev later : Session small_bus
later = record { world = 3; slices = record { next = 4; cell = λ q. none } }

blocking-call_example :
    blocking small_bus hello later 1 ≡ some (settle (answer 3), record later { world = 4 })
blocking-call_example = blocking-call small_bus hello later 1

async_delivers_blocking_example :
    (asynchronous small_bus (request_name "a.b" 4) start 1 7 9 >>= λ (pending, s').
    complete small_bus 1 pending s')
    ≡ (blocking small_bus (request_name "a.b" 4) start 1 >>= λ (ret, s'). some (
      record { callback = 7; proxy = 1; outs = ret.outs; error = ret.error; userdata = 9 },
      record s' { slices = skip_slice s'.slices },
    ))
async_delivers_blocking_example =
    async_delivers_blocking small_bus (request_name "a.b" 4) start 1 7 9 (λ q h. refl)

abbrev first_data : AsyncData
first_data = record { cb = 7; userdata = 9 }

abbrev second_data : AsyncData
second_data = record { cb = 8; userdata = 10 }

overlapping_requests_example :
    (i j : Invocation small_bus) × (t : Session small_bus) × (overlapped small_bus hello
        (get_name_owner "a.b")
        later
        1
        2
        first_data
        second_data
      ≡ some (i, j, t))
    × (i.callback ≡ 7)
    × (i.userdata ≡ 9)
    × (i.proxy ≡ 1)
    × (j.callback ≡ 8)
    × (j.userdata ≡ 10)
    × (j.proxy ≡ 2)
    × (t.slices.cell 3 ≡ none)
overlapping_requests_example =
    overlapping_requests small_bus hello (get_name_owner "a.b") later 1 2 first_data second_data 3
      (omega arith)
