-- ===== src/DBus/Wrappers/Naming.antt =====
-- The client wrappers of rootfs/usr/include/dbus-1.0/dbus/dbus-glib-bindings.h: the names that a client asks for and gives up.
-- Each method has a blocking wrapper, the callback of its reply, and an asynchronous wrapper.
use chronos_updates.Common.{ℕ, String, Option, [], ◌∷◌}
use chronos_updates.DBus.Glib.{
  invalid, string, uint, char_ptr, guint, tag, chars, count, out, DBusGlib, Returned,
}
use chronos_updates.DBus.Client.{
  Session, Notify, Pending, dbus_g_proxy_call, begin_async, finish_async,
}

module _ (lib : DBusGlib) where
  open lib use {Proxy, Failure}

  unfoldable pub introspect : Session lib → Proxy → Option (Returned Failure × Session lib)
  unfolding dbus_g_proxy_call
  introspect s proxy =
      dbus_g_proxy_call lib s proxy "Introspect"
        (tag invalid ∷ tag string ∷ out char_ptr ∷ tag invalid ∷ [])

  unfoldable pub introspect_async_callback : Notify lib
  unfolding finish_async
  introspect_async_callback s proxy call user_data =
      finish_async lib (tag string ∷ out char_ptr ∷ tag invalid ∷ []) s proxy call user_data

  unfoldable pub introspect_async : Session lib → Proxy → ℕ → ℕ → Option (Pending lib × Session lib)
  unfolding begin_async
  introspect_async s proxy callback userdata =
      begin_async lib proxy "Introspect" introspect_async_callback callback userdata
        (tag invalid ∷ []) s

  unfoldable pub request_name :
      Session lib → Proxy → String → ℕ → Option (Returned Failure × Session lib)
  unfolding dbus_g_proxy_call
  request_name s proxy in_arg0 in_arg1 = dbus_g_proxy_call lib s proxy "RequestName" (
      tag string
      ∷ chars in_arg0
      ∷ tag uint
      ∷ count in_arg1
      ∷ tag invalid
      ∷ tag uint
      ∷ out guint
      ∷ tag invalid
      ∷ [])

  unfoldable pub request_name_async_callback : Notify lib
  unfolding finish_async
  request_name_async_callback s proxy call user_data =
      finish_async lib (tag uint ∷ out guint ∷ tag invalid ∷ []) s proxy call user_data

  unfoldable pub request_name_async :
      Session lib → Proxy → String → ℕ → ℕ → ℕ → Option (Pending lib × Session lib)
  unfolding begin_async
  request_name_async s proxy in_arg0 in_arg1 callback userdata =
      begin_async lib proxy "RequestName" request_name_async_callback callback userdata
        (tag string ∷ chars in_arg0 ∷ tag uint ∷ count in_arg1 ∷ tag invalid ∷ []) s

  unfoldable pub release_name :
      Session lib → Proxy → String → Option (Returned Failure × Session lib)
  unfolding dbus_g_proxy_call
  release_name s proxy in_arg0 =
      dbus_g_proxy_call lib s proxy "ReleaseName"
        (tag string ∷ chars in_arg0 ∷ tag invalid ∷ tag uint ∷ out guint ∷ tag invalid ∷ [])

  unfoldable pub release_name_async_callback : Notify lib
  unfolding finish_async
  release_name_async_callback s proxy call user_data =
      finish_async lib (tag uint ∷ out guint ∷ tag invalid ∷ []) s proxy call user_data

  unfoldable pub release_name_async :
      Session lib → Proxy → String → ℕ → ℕ → Option (Pending lib × Session lib)
  unfolding begin_async
  release_name_async s proxy in_arg0 callback userdata =
      begin_async lib proxy "ReleaseName" release_name_async_callback callback userdata
        (tag string ∷ chars in_arg0 ∷ tag invalid ∷ []) s

  unfoldable pub start_service_by_name :
      Session lib → Proxy → String → ℕ → Option (Returned Failure × Session lib)
  unfolding dbus_g_proxy_call
  start_service_by_name s proxy in_arg0 in_arg1 =
      dbus_g_proxy_call lib s proxy "StartServiceByName" (
        tag string
        ∷ chars in_arg0
        ∷ tag uint
        ∷ count in_arg1
        ∷ tag invalid
        ∷ tag uint
        ∷ out guint
        ∷ tag invalid
        ∷ [])

  unfoldable pub start_service_by_name_async_callback : Notify lib
  unfolding finish_async
  start_service_by_name_async_callback s proxy call user_data =
      finish_async lib (tag uint ∷ out guint ∷ tag invalid ∷ []) s proxy call user_data

  unfoldable pub start_service_by_name_async :
      Session lib → Proxy → String → ℕ → ℕ → ℕ → Option (Pending lib × Session lib)
  unfolding begin_async
  start_service_by_name_async s proxy in_arg0 in_arg1 callback userdata =
      begin_async lib proxy "StartServiceByName" start_service_by_name_async_callback callback
        userdata (tag string ∷ chars in_arg0 ∷ tag uint ∷ count in_arg1 ∷ tag invalid ∷ []) s

  unfoldable pub hello : Session lib → Proxy → Option (Returned Failure × Session lib)
  unfolding dbus_g_proxy_call
  hello s proxy =
      dbus_g_proxy_call lib s proxy "Hello"
        (tag invalid ∷ tag string ∷ out char_ptr ∷ tag invalid ∷ [])

  unfoldable pub hello_async_callback : Notify lib
  unfolding finish_async
  hello_async_callback s proxy call user_data =
      finish_async lib (tag string ∷ out char_ptr ∷ tag invalid ∷ []) s proxy call user_data

  unfoldable pub hello_async : Session lib → Proxy → ℕ → ℕ → Option (Pending lib × Session lib)
  unfolding begin_async
  hello_async s proxy callback userdata =
      begin_async lib proxy "Hello" hello_async_callback callback userdata (tag invalid ∷ []) s
