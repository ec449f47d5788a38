-- ===== src/DBus/Wrappers/Peers.antt =====
-- The client wrappers of rootfs/usr/include/dbus-1.0/dbus/dbus-glib-bindings.h: what the bus knows of a connection.
-- Each method has a blocking wrapper, the callback of its reply, and an asynchronous wrapper.
use chronos_updates.Common.{ℕ, String, Option, [], ◌∷◌}
use chronos_updates.DBus.Glib.{
  invalid, string, uint, strv, uchar_array, char_ptr, guint, char_ptr_ptr, garray_ptr, tag, chars,
  out, DBusGlib, Returned,
}
use chronos_updates.DBus.Client.{
  Session, Notify, Pending, dbus_g_proxy_call, begin_async, finish_async,
}

module _ (lib : DBusGlib) where
  open lib use {Proxy, Failure}

  unfoldable pub get_name_owner :
      Session lib → Proxy → String → Option (Returned Failure × Session lib)
  unfolding dbus_g_proxy_call
  get_name_owner s proxy in_arg0 =
      dbus_g_proxy_call lib s proxy "GetNameOwner"
        (tag string ∷ chars in_arg0 ∷ tag invalid ∷ tag string ∷ out char_ptr ∷ tag invalid ∷ [])

  unfoldable pub get_name_owner_async_callback : Notify lib
  unfolding finish_async
  get_name_owner_async_callback s proxy call user_data =
      finish_async lib (tag string ∷ out char_ptr ∷ tag invalid ∷ []) s proxy call user_data

  unfoldable pub get_name_owner_async :
      Session lib → Proxy → String → ℕ → ℕ → Option (Pending lib × Session lib)
  unfolding begin_async
  get_name_owner_async s proxy in_arg0 callback userdata =
      begin_async lib proxy "GetNameOwner" get_name_owner_async_callback callback userdata
        (tag string ∷ chars in_arg0 ∷ tag invalid ∷ []) s

  unfoldable pub list_queued_owners :
      Session lib → Proxy → String → Option (Returned Failure × Session lib)
  unfolding dbus_g_proxy_call
  list_queued_owners s proxy in_arg0 =
      dbus_g_proxy_call lib s proxy "ListQueuedOwners"
        (tag string ∷ chars in_arg0 ∷ tag invalid ∷ tag strv ∷ out char_ptr_ptr ∷ tag invalid ∷ [])

  unfoldable pub list_queued_owners_async_callback : Notify lib
  unfolding finish_async
  list_queued_owners_async_callback s proxy call user_data =
      finish_async lib (tag strv ∷ out char_ptr_ptr ∷ tag invalid ∷ []) s proxy call user_data

  unfoldable pub list_queued_owners_async :
      Session lib → Proxy → String → ℕ → ℕ → Option (Pending lib × Session lib)
  unfolding begin_async
  list_queued_owners_async s proxy in_arg0 callback userdata =
      begin_async lib proxy "ListQueuedOwners" list_queued_owners_async_callback callback userdata
        (tag string ∷ chars in_arg0 ∷ tag invalid ∷ []) s

  unfoldable pub get_connection_unix_user :
      Session lib → Proxy → String → Option (Returned Failure × Session lib)
  unfolding dbus_g_proxy_call
  get_connection_unix_user s proxy in_arg0 =
      dbus_g_proxy_call lib s proxy "GetConnectionUnixUser"
        (tag string ∷ chars in_arg0 ∷ tag invalid ∷ tag uint ∷ out guint ∷ tag invalid ∷ [])

  unfoldable pub get_connection_unix_user_async_callback : Notify lib
  unfolding finish_async
  get_connection_unix_user_async_callback s proxy call user_data =
      finish_async lib (tag uint ∷ out guint ∷ tag invalid ∷ []) s proxy call user_data

  unfoldable pub get_connection_unix_user_async :
      Session lib → Proxy → String → ℕ → ℕ → Option (Pending lib × Session lib)
  unfolding begin_async
  get_connection_unix_user_async s proxy in_arg0 callback userdata =
      begin_async lib proxy "GetConnectionUnixUser" get_connection_unix_user_async_callback callback
        userdata (tag string ∷ chars in_arg0 ∷ tag invalid ∷ []) s

  unfoldable pub get_connection_unix_process_id :
      Session lib → Proxy → String → Option (Returned Failure × Session lib)
  unfolding dbus_g_proxy_call
  get_connection_unix_process_id s proxy in_arg0 =
      dbus_g_proxy_call lib s proxy "GetConnectionUnixProcessID"
        (tag string ∷ chars in_arg0 ∷ tag invalid ∷ tag uint ∷ out guint ∷ tag invalid ∷ [])

  unfoldable pub get_connection_unix_process_id_async_callback : Notify lib
  unfolding finish_async
  get_connection_unix_process_id_async_callback s proxy call user_data =
      finish_async lib (tag uint ∷ out guint ∷ tag invalid ∷ []) s proxy call user_data

  unfoldable pub get_connection_unix_process_id_async :
      Session lib → Proxy → String → ℕ → ℕ → Option (Pending lib × Session lib)
  unfolding begin_async
  get_connection_unix_process_id_async s proxy in_arg0 callback userdata =
      begin_async lib proxy "GetConnectionUnixProcessID"
        get_connection_unix_process_id_async_callback callback userdata
        (tag string ∷ chars in_arg0 ∷ tag invalid ∷ []) s

  unfoldable pub get_connection_se_linux_security_context :
      Session lib → Proxy → String → Option (Returned Failure × Session lib)
  unfolding dbus_g_proxy_call
  get_connection_se_linux_security_context s proxy in_arg0 =
      dbus_g_proxy_call lib s proxy "GetConnectionSELinuxSecurityContext" (
        tag string
        ∷ chars in_arg0
        ∷ tag invalid
        ∷ tag uchar_array
        ∷ out garray_ptr
        ∷ tag invalid
        ∷ [])

  unfoldable pub get_connection_se_linux_security_context_async_callback : Notify lib
  unfolding finish_async
  get_connection_se_linux_security_context_async_callback s proxy call user_data =
      finish_async lib (tag uchar_array ∷ out garray_ptr ∷ tag invalid ∷ []) s proxy call user_data

  unfoldable pub get_connection_se_linux_security_context_async :
      Session lib → Proxy → String → ℕ → ℕ → Option (Pending lib × Session lib)
  unfolding begin_async
  get_connection_se_linux_security_context_async s proxy in_arg0 callback userdata =
      begin_async lib proxy "GetConnectionSELinuxSecurityContext"
        get_connection_se_linux_security_context_async_callback callback userdata
        (tag string ∷ chars in_arg0 ∷ tag invalid ∷ []) s

  unfoldable pub reload_config : Session lib → Proxy → Option (Returned Failure × Session lib)
  unfolding dbus_g_proxy_call
  reload_config s proxy =
      dbus_g_proxy_call lib s proxy "ReloadConfig" (tag invalid ∷ tag invalid ∷ [])

  unfoldable pub reload_config_async_callback : Notify lib
  unfolding finish_async
  reload_config_async_callback s proxy call user_data =
      finish_async lib (tag invalid ∷ []) s proxy call user_data

  unfoldable pub reload_config_async :
      Session lib → Proxy → ℕ → ℕ → Option (Pending lib × Session lib)
  unfolding begin_async
  reload_config_async s proxy callback userdata =
      begin_async lib proxy "ReloadConfig" reload_config_async_callback callback userdata
        (tag invalid ∷ []) s
