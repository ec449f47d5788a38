-- ===== src/DBus/Requests/Laws.antt =====
-- Each wrapper of a request as one call of the library, whatever the request.
use chronos_updates.Common.{ℕ, ◌≡◌, refl, some, ◌>>=◌}
use chronos_updates.DBus.Glib.{DBusGlib, settle}
use chronos_updates.DBus.Client.{AsyncData, Session, slice_new, async_data_free}
use chronos_updates.DBus.Requests.{
  Request, introspect, member, arguments, results, blocking, reply_callback, asynchronous,
}

module _ (lib : DBusGlib) where
  open lib use {Proxy, CallId}

  -- A blocking wrapper passes its method the values and the result types of the method, by an
  -- argument list whose every tag fits the argument behind it, and returns `TRUE` with the
  -- variables set or `FALSE` with the error set, as the reply says.
  pub blocking-call :
      (r : Request) (s : Session lib) (p : Proxy)
      → let (reply, w) = lib.call s.world p (member r) (arguments r) (results r) in
        blocking lib r s p ≡ some (settle reply, record s { world = w })
  unfolding blocking member arguments results
  blocking-call introspect s p = refl
  blocking-call _ s p = refl

  pub asynchronous-begin :
      (r : Request) (s : Session lib) (p : Proxy) (callback userdata : ℕ)
      → let (c, w) = lib.begin_call s.world p (member r) (arguments r) in
        asynchronous lib r s p callback userdata
        ≡ some (
          record {
            call = c;
            notify = reply_callback lib r;
            user_data = s.slices.next;
            destroy = async_data_free;
          },
          record {
            world = w;
            slices = slice_new (record { cb = callback; userdata = userdata }) s.slices;
          },
        )
  unfolding asynchronous member arguments reply_callback
  asynchronous-begin introspect s p callback userdata = refl
  asynchronous-begin _ s p callback userdata = refl

  pub reply_callback-invokes :
      (r : Request) (s : Session lib) (p : Proxy) (c : CallId) (u : ℕ) {d : AsyncData}
      → s.slices.cell u ≡ some d
      → let (reply, w) = lib.end_call s.world p c (results r) in
        let ret = settle reply in
        reply_callback lib r s p c u
        ≡ some (
          record {
            callback = d.cb;
            proxy = p;
            outs = ret.outs;
            error = ret.error;
            userdata = d.userdata;
          },
          record s { world = w },
        )
  unfolding reply_callback results
  reply_callback-invokes introspect s p c u e = rw (e, ◌>>=◌) refl
  reply_callback-invokes _ s p c u e = rw (e, ◌>>=◌) refl
