-- ===== src/DBus/Wrappers/Listing.antt =====
-- The client wrappers of rootfs/usr/include/dbus-1.0/dbus/dbus-glib-bindings.h: the names on the bus and the match rules.
-- Each method has a blocking wrapper, the callback of its reply, and an asynchronous wrapper.
use chronos_updates.Common.{ℕ, String, Option, [], ◌∷◌}
use chronos_updates.DBus.Glib.{
  invalid, string, boolean, strv, gboolean, char_ptr_ptr, tag, chars, out, DBusGlib, Returned,
}
use chronos_updates.DBus.Client.{
  Session, Notify, Pending, dbus_g_proxy_call, begin_async, finish_async,
}

module _ (lib : DBusGlib) where
  open lib use {Proxy, Failure}

  unfoldable pub name_has_owner :
      Session lib → Proxy → String → Option (Returned Failure × Session lib)
  unfolding dbus_g_proxy_call
  name_has_owner s proxy in_arg0 =
      dbus_g_proxy_call lib s proxy "NameHasOwner"
        (tag string ∷ chars in_arg0 ∷ tag invalid ∷ tag boolean ∷ out gboolean ∷ tag invalid ∷ [])

  unfoldable pub name_has_owner_async_callback : Notify lib
  unfolding finish_async
  name_has_owner_async_callback s proxy call user_data =
      finish_async lib (tag boolean ∷ out gboolean ∷ tag invalid ∷ []) s proxy call user_data

  unfoldable pub name_has_owner_async :
      Session lib → Proxy → String → ℕ → ℕ → Option (Pending lib × Session lib)
  unfolding begin_async
  name_has_owner_async s proxy in_arg0 callback userdata =
      begin_async lib proxy "NameHasOwner" name_has_owner_async_callback callback userdata
        (tag string ∷ chars in_arg0 ∷ tag invalid ∷ []) s

  unfoldable pub list_names : Session lib → Proxy → Option (Returned Failure × Session lib)
  unfolding dbus_g_proxy_call
  list_names s proxy =
      dbus_g_proxy_call lib s proxy "ListNames"
        (tag invalid ∷ tag strv ∷ out char_ptr_ptr ∷ tag invalid ∷ [])

  unfoldable pub list_names_async_callback : Notify lib
  unfolding finish_async
  list_names_async_callback s proxy call user_data =
      finish_async lib (tag strv ∷ out char_ptr_ptr ∷ tag invalid ∷ []) s proxy call user_data

  unfoldable pub list_names_async : Session lib → Proxy → ℕ → ℕ → Option (Pending lib × Session lib)
  unfolding begin_async
  list_names_async s proxy callback userdata =
      begin_async lib proxy "ListNames" list_names_async_callback callback userdata
        (tag invalid ∷ []) s

  unfoldable pub list_activatable_names :
      Session lib → Proxy → Option (Returned Failure × Session lib)
  unfolding dbus_g_proxy_call
  list_activatable_names s proxy =
      dbus_g_proxy_call lib s proxy "ListActivatableNames"
        (tag invalid ∷ tag strv ∷ out char_ptr_ptr ∷ tag invalid ∷ [])

  unfoldable pub list_activatable_names_async_callback : Notify lib
  unfolding finish_async
  list_activatable_names_async_callback s proxy call user_data =
      finish_async lib (tag strv ∷ out char_ptr_ptr ∷ tag invalid ∷ []) s proxy call user_data

  unfoldable pub list_activatable_names_async :
      Session lib → Proxy → ℕ → ℕ → Option (Pending lib × Session lib)
  unfolding begin_async
  list_activatable_names_async s proxy callback userdata =
      begin_async lib proxy "ListActivatableNames" list_activatable_names_async_callback callback
        userdata (tag invalid ∷ []) s

  unfoldable pub add_match : Session lib → Proxy → String → Option (Returned Failure × Session lib)
  unfolding dbus_g_proxy_call
  add_match s proxy in_arg0 =
      dbus_g_proxy_call lib s proxy "AddMatch"
        (tag string ∷ chars in_arg0 ∷ tag invalid ∷ tag invalid ∷ [])

  unfoldable pub add_match_async_callback : Notify lib
  unfolding finish_async
  add_match_async_callback s proxy call user_data =
      finish_async lib (tag invalid ∷ []) s proxy call user_data

  unfoldable pub add_match_async :
      Session lib → Proxy → String → ℕ → ℕ → Option (Pending lib × Session lib)
  unfolding begin_async
  add_match_async s proxy in_arg0 callback userdata =
      begin_async lib proxy "AddMatch" add_match_async_callback callback userdata
        (tag string ∷ chars in_arg0 ∷ tag invalid ∷ []) s

  unfoldable pub remove_match :
      Session lib → Proxy → String → Option (Returned Failure × Session lib)
  unfolding dbus_g_proxy_call
  remove_match s proxy in_arg0 =
      dbus_g_proxy_call lib s proxy "RemoveMatch"
        (tag string ∷ chars in_arg0 ∷ tag invalid ∷ tag invalid ∷ [])

  unfoldable pub remove_match_async_callback : Notify lib
  unfolding finish_async
  remove_match_async_callback s proxy call user_data =
      finish_async lib (tag invalid ∷ []) s proxy call user_data

  unfoldable pub remove_match_async :
      Session lib → Proxy → String → ℕ → ℕ → Option (Pending lib × Session lib)
  unfolding begin_async
  remove_match_async s proxy in_arg0 callback userdata =
      begin_async lib proxy "RemoveMatch" remove_match_async_callback callback userdata
        (tag string ∷ chars in_arg0 ∷ tag invalid ∷ []) s
