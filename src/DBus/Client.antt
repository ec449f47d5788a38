-- ===== src/DBus/Client.antt =====
-- What every client wrapper of rootfs/usr/include/dbus-1.0/dbus/dbus-glib-bindings.h does: a
-- blocking call, a call with a callback, and the callback that takes the reply. Memory of
-- `g_slice_new` is a store of `DBusGAsyncData` cells; a callback is the address of a function.
use chronos_updates.Common.{ℕ, ◌+◌, String, Option, none, some, List, ◌>>=◌, ◌==◌, if◌then◌else◌}
use chronos_updates.DBus.Glib.{
  VarArg, DBusGlib, Local, Returned, in_args, out_args, only_in_args, settle,
}

-- `DBusGAsyncData`.
pub record AsyncData : Type 0 where
  pub cb : ℕ
  pub userdata : ℕ

pub record Slices : Type 0 where
  pub next : ℕ
  pub cell : ℕ → Option AsyncData

abbrev pub slice_new : AsyncData → Slices → Slices
slice_new d m = record { next = m.next + 1; cell = λ q. if q == m.next then some d else m.cell q }

-- `g_slice_free`.
abbrev pub slice_free : ℕ → Slices → Slices
slice_free p m = record m { cell = λ q. if q == p then none else m.cell q }

-- `_dbus_glib_async_data_free`.
unfoldable pub async_data_free : ℕ → Slices → Slices
async_data_free stuff m = slice_free stuff m

module _ (lib : DBusGlib) where
  open lib use {World, Proxy, Failure, CallId}

  pub record Session : Type 0 where
    pub world : World
    pub slices : Slices

  -- A call of the user's callback.
  pub record Invocation : Type 0 where
    pub callback : ℕ
    pub proxy : Proxy
    pub outs : List Local
    pub error : Option Failure
    pub userdata : ℕ

  -- `DBusGProxyCallNotify`.
  abbrev pub Notify : Type 0
  Notify = Session → Proxy → CallId → ℕ → Option (Invocation × Session)

  -- What `dbus_g_proxy_begin_call` is given to keep until the reply.
  pub record Pending : Type 0 where
    pub call : CallId
    pub notify : Notify
    pub user_data : ℕ
    pub destroy : ℕ → Slices → Slices

  unfoldable pub dbus_g_proxy_call :
      Session → Proxy → String → List VarArg → Option (Returned Failure × Session)
  unfolding settle
  dbus_g_proxy_call s p m va = in_args va >>= λ (vs, rest). out_args rest >>= λ ts.
      let (reply, w) = lib.call s.world p m vs ts in some (settle reply, record s { world = w })

  unfoldable dbus_g_proxy_begin_call :
      Session
      → Proxy
      → String
      → Notify
      → ℕ
      → (ℕ → Slices → Slices)
      → List VarArg
      → Option (Pending × Session)
  dbus_g_proxy_begin_call s p m notify user_data destroy va = only_in_args va >>= λ vs.
      let (c, w) = lib.begin_call s.world p m vs in
      some (
        record { call = c; notify = notify; user_data = user_data; destroy = destroy },
        record s { world = w },
      )

  unfoldable dbus_g_proxy_end_call :
      Session → Proxy → CallId → List VarArg → Option (Returned Failure × Session)
  unfolding settle
  dbus_g_proxy_end_call s p c va = out_args va >>= λ ts.
      let (reply, w) = lib.end_call s.world p c ts in some (settle reply, record s { world = w })

  -- The reply is there: the library runs the notification, then destroys its data.
  unfoldable pub complete : Proxy → Pending → Session → Option (Invocation × Session)
  complete p call s = call.notify s p call.call call.user_data >>= λ (i, s').
      some (i, record s' { slices = call.destroy call.user_data s'.slices })

  -- The body of an `_async` wrapper.
  unfoldable pub begin_async :
      Proxy → String → Notify → ℕ → ℕ → List VarArg → Session → Option (Pending × Session)
  unfolding dbus_g_proxy_begin_call async_data_free
  begin_async proxy method notify callback userdata va s =
      let stuff = s.slices.next in
      let s' = record s {
        slices = slice_new (record { cb = callback; userdata = userdata }) s.slices;
      } in
      dbus_g_proxy_begin_call s' proxy method notify stuff async_data_free va

  -- The body of an `_async_callback`: it takes the reply, reads `user_data` and calls the user's
  -- function with the variables as the library has left them.
  unfoldable pub finish_async : List VarArg → Notify
  unfolding dbus_g_proxy_end_call
  finish_async va s proxy call user_data = dbus_g_proxy_end_call s proxy call va >>= λ (r, s').
      s'.slices.cell user_data >>= λ d. some (
        record {
          callback = d.cb;
          proxy = proxy;
          outs = r.outs;
          error = r.error;
          userdata = d.userdata;
        },
        s',
      )
