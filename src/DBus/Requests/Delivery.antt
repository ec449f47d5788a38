-- ===== src/DBus/Requests/Delivery.antt =====
-- Asynchronous requests against blocking ones.
use mathlib.Core.Path.{fun_ext}
use chronos_updates.Common.{ℕ, ◌+◌, ◌≤◌, ◌≡◌, ap, ◌∙◌, refl, none, some, arith, ◌>>=◌}
use chronos_updates.DBus.Glib.{DBusGlib, settle}
use chronos_updates.DBus.Client.{
  AsyncData, Slices, Session, slice_new, slice_free, async_data_free, complete,
}
use chronos_updates.DBus.Requests.{
  Request, member, arguments, results, blocking, reply_callback, asynchronous,
}
use chronos_updates.DBus.Requests.Laws.{blocking-call, asynchronous-begin, reply_callback-invokes}

-- The slices from `next` on are not in use.
abbrev IsFresh : Slices → Type 0
IsFresh m = (q : ℕ) → m.next ≤ q → m.cell q ≡ none

-- The slices as they were, but for the address that the next one gets.
abbrev pub skip_slice : Slices → Slices
skip_slice m = record m { next = m.next + 1 }

slice_free-slice_new :
    (m : Slices) (d : AsyncData) → IsFresh m → slice_free m.next (slice_new d m) ≡ skip_slice m
slice_free-slice_new m d fresh =
    ap {B = Slices} (λ f. record { next = m.next + 1; cell = f })
      (fun_ext λ q. ground (arith, fresh q))

slice_new-cell : (m : Slices) (d : AsyncData) → (slice_new d m).cell m.next ≡ some d
slice_new-cell m d = ground arith

module _ (lib : DBusGlib) where
  open lib use {Proxy, CallId}

  pub complete-invokes :
      (r : Request) (s : Session lib) (p : Proxy) (c : CallId) (u : ℕ) {d : AsyncData}
      → s.slices.cell u ≡ some d
      → let (reply, w) = lib.end_call s.world p c (results r) in
        let ret = settle reply in
        complete lib p
          (record {
            call = c;
            notify = reply_callback lib r;
            user_data = u;
            destroy = async_data_free;
          })
          s
        ≡ some (
          record {
            callback = d.cb;
            proxy = p;
            outs = ret.outs;
            error = ret.error;
            userdata = d.userdata;
          },
          record { world = w; slices = slice_free u s.slices },
        )
  unfolding complete async_data_free
  complete-invokes r s p c u e = rw (reply_callback-invokes lib r s p c u e, ◌>>=◌) refl

  -- Where no slice from the next one on is in use, making a request asynchronously and completing
  -- it calls the given function once, with the given user data, and with the variables and the
  -- error that the blocking wrapper would have left; the world is as after the blocking wrapper,
  -- and the slice of the request is free again.
  pub async_delivers_blocking :
      (r : Request) (s : Session lib) (p : Proxy) (callback userdata : ℕ)
      → IsFresh s.slices
      → (asynchronous lib r s p callback userdata >>= λ (pending, s'). complete lib p pending s')
        ≡ (blocking lib r s p >>= λ (ret, s'). some (
          record {
            callback = callback;
            proxy = p;
            outs = ret.outs;
            error = ret.error;
            userdata = userdata;
          },
          record s' { slices = skip_slice s'.slices },
        ))
  async_delivers_blocking r s p callback userdata fresh =
      rw (asynchronous-begin lib r s p callback userdata, blocking-call lib r s p)
        (complete-invokes r _ p _ _ (slice_new-cell s.slices _)
          ∙ rw
              (
                lib.call_is_begin_end s.world p (member r) (arguments r) (results r),
                slice_free-slice_new s.slices (record { cb = callback; userdata = userdata }) fresh,
              )
              refl)
