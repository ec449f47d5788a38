-- ===== src/DBus/Requests.antt =====
-- The sixteen requests that the wrappers of
-- rootfs/usr/include/dbus-1.0/dbus/dbus-glib-bindings.h make, in one type, with the methods of
-- the interfaces org.freedesktop.DBus and org.freedesktop.DBus.Introspectable that they stand for.
pub mod Laws
pub mod Delivery
pub mod Overlap
use chronos_updates.Common.{ℕ, String, Option, List, [], ◌∷◌}
use chronos_updates.DBus.Glib.{
  GType, string, uint, boolean, strv, uchar_array, Value, text, number, DBusGlib, Returned,
}
use chronos_updates.DBus.Client.{Session, Notify, Pending}
use chronos_updates.DBus.Wrappers.Naming
use chronos_updates.DBus.Wrappers.Listing
use chronos_updates.DBus.Wrappers.Peers

pub data Request : Type 0 where
  introspect : Request
  request_name : String → ℕ → Request
  release_name : String → Request
  start_service_by_name : String → ℕ → Request
  hello : Request
  name_has_owner : String → Request
  list_names : Request
  list_activatable_names : Request
  add_match : String → Request
  remove_match : String → Request
  get_name_owner : String → Request
  list_queued_owners : String → Request
  get_connection_unix_user : String → Request
  get_connection_unix_process_id : String → Request
  get_connection_se_linux_security_context : String → Request
  reload_config : Request

-- The method's name.
pub member : Request → String
member introspect = "Introspect"
member (request_name _ _) = "RequestName"
member (release_name _) = "ReleaseName"
member (start_service_by_name _ _) = "StartServiceByName"
member hello = "Hello"
member (name_has_owner _) = "NameHasOwner"
member list_names = "ListNames"
member list_activatable_names = "ListActivatableNames"
member (add_match _) = "AddMatch"
member (remove_match _) = "RemoveMatch"
member (get_name_owner _) = "GetNameOwner"
member (list_queued_owners _) = "ListQueuedOwners"
member (get_connection_unix_user _) = "GetConnectionUnixUser"
member (get_connection_unix_process_id _) = "GetConnectionUnixProcessID"
member (get_connection_se_linux_security_context _) = "GetConnectionSELinuxSecurityContext"
member reload_config = "ReloadConfig"

-- The values that the method takes.
pub arguments : Request → List Value
arguments introspect = []
arguments (request_name a b) = text a ∷ number b ∷ []
arguments (release_name a) = text a ∷ []
arguments (start_service_by_name a b) = text a ∷ number b ∷ []
arguments hello = []
arguments (name_has_owner a) = text a ∷ []
arguments list_names = []
arguments list_activatable_names = []
arguments (add_match a) = text a ∷ []
arguments (remove_match a) = text a ∷ []
arguments (get_name_owner a) = text a ∷ []
arguments (list_queued_owners a) = text a ∷ []
arguments (get_connection_unix_user a) = text a ∷ []
arguments (get_connection_unix_process_id a) = text a ∷ []
arguments (get_connection_se_linux_security_context a) = text a ∷ []
arguments reload_config = []

-- The types of the values that it returns.
pub results : Request → List GType
results introspect = string ∷ []
results (request_name _ _) = uint ∷ []
results (release_name _) = uint ∷ []
results (start_service_by_name _ _) = uint ∷ []
results hello = string ∷ []
results (name_has_owner _) = boolean ∷ []
results list_names = strv ∷ []
results list_activatable_names = strv ∷ []
results (add_match _) = []
results (remove_match _) = []
results (get_name_owner _) = string ∷ []
results (list_queued_owners _) = strv ∷ []
results (get_connection_unix_user _) = uint ∷ []
results (get_connection_unix_process_id _) = uint ∷ []
results (get_connection_se_linux_security_context _) = uchar_array ∷ []
results reload_config = []

module _ (lib : DBusGlib) where
  open lib use {Proxy, Failure}

  -- The blocking wrapper of a request.
  pub blocking : Request → Session lib → Proxy → Option (Returned Failure × Session lib)
  unfolding Naming.introspect Naming.request_name Naming.release_name Naming.start_service_by_name
      Naming.hello Listing.name_has_owner Listing.list_names Listing.list_activatable_names
      Listing.add_match Listing.remove_match Peers.get_name_owner Peers.list_queued_owners
      Peers.get_connection_unix_user Peers.get_connection_unix_process_id
      Peers.get_connection_se_linux_security_context Peers.reload_config
  blocking introspect s p = Naming.introspect lib s p
  blocking (request_name a b) s p = Naming.request_name lib s p a b
  blocking (release_name a) s p = Naming.release_name lib s p a
  blocking (start_service_by_name a b) s p = Naming.start_service_by_name lib s p a b
  blocking hello s p = Naming.hello lib s p
  blocking (name_has_owner a) s p = Listing.name_has_owner lib s p a
  blocking list_names s p = Listing.list_names lib s p
  blocking list_activatable_names s p = Listing.list_activatable_names lib s p
  blocking (add_match a) s p = Listing.add_match lib s p a
  blocking (remove_match a) s p = Listing.remove_match lib s p a
  blocking (get_name_owner a) s p = Peers.get_name_owner lib s p a
  blocking (list_queued_owners a) s p = Peers.list_queued_owners lib s p a
  blocking (get_connection_unix_user a) s p = Peers.get_connection_unix_user lib s p a
  blocking (get_connection_unix_process_id a) s p = Peers.get_connection_unix_process_id lib s p a
  blocking (get_connection_se_linux_security_context a) s p =
      Peers.get_connection_se_linux_security_context lib s p a
  blocking reload_config s p = Peers.reload_config lib s p

  -- The function that takes its reply.
  pub reply_callback : Request → Notify lib
  unfolding Naming.introspect_async_callback Naming.request_name_async_callback
      Naming.release_name_async_callback Naming.start_service_by_name_async_callback
      Naming.hello_async_callback Listing.name_has_owner_async_callback
      Listing.list_names_async_callback Listing.list_activatable_names_async_callback
      Listing.add_match_async_callback Listing.remove_match_async_callback
      Peers.get_name_owner_async_callback Peers.list_queued_owners_async_callback
      Peers.get_connection_unix_user_async_callback
      Peers.get_connection_unix_process_id_async_callback
      Peers.get_connection_se_linux_security_context_async_callback
      Peers.reload_config_async_callback
  reply_callback introspect s p c u = Naming.introspect_async_callback lib s p c u
  reply_callback (request_name _ _) s p c u = Naming.request_name_async_callback lib s p c u
  reply_callback (release_name _) s p c u = Naming.release_name_async_callback lib s p c u
  reply_callback (start_service_by_name _ _) s p c u =
      Naming.start_service_by_name_async_callback lib s p c u
  reply_callback hello s p c u = Naming.hello_async_callback lib s p c u
  reply_callback (name_has_owner _) s p c u = Listing.name_has_owner_async_callback lib s p c u
  reply_callback list_names s p c u = Listing.list_names_async_callback lib s p c u
  reply_callback list_activatable_names s p c u =
      Listing.list_activatable_names_async_callback lib s p c u
  reply_callback (add_match _) s p c u = Listing.add_match_async_callback lib s p c u
  reply_callback (remove_match _) s p c u = Listing.remove_match_async_callback lib s p c u
  reply_callback (get_name_owner _) s p c u = Peers.get_name_owner_async_callback lib s p c u
  reply_callback (list_queued_owners _) s p c u =
      Peers.list_queued_owners_async_callback lib s p c u
  reply_callback (get_connection_unix_user _) s p c u =
      Peers.get_connection_unix_user_async_callback lib s p c u
  reply_callback (get_connection_unix_process_id _) s p c u =
      Peers.get_connection_unix_process_id_async_callback lib s p c u
  reply_callback (get_connection_se_linux_security_context _) s p c u =
      Peers.get_connection_se_linux_security_context_async_callback lib s p c u
  reply_callback reload_config s p c u = Peers.reload_config_async_callback lib s p c u

  -- Its asynchronous wrapper.
  pub asynchronous : Request → Session lib → Proxy → ℕ → ℕ → Option (Pending lib × Session lib)
  unfolding Naming.introspect_async Naming.request_name_async Naming.release_name_async
      Naming.start_service_by_name_async Naming.hello_async Listing.name_has_owner_async
      Listing.list_names_async Listing.list_activatable_names_async Listing.add_match_async
      Listing.remove_match_async Peers.get_name_owner_async Peers.list_queued_owners_async
      Peers.get_connection_unix_user_async Peers.get_connection_unix_process_id_async
      Peers.get_connection_se_linux_security_context_async Peers.reload_config_async
  asynchronous introspect s p callback userdata = Naming.introspect_async lib s p callback userdata
  asynchronous (request_name a b) s p callback userdata =
      Naming.request_name_async lib s p a b callback userdata
  asynchronous (release_name a) s p callback userdata =
      Naming.release_name_async lib s p a callback userdata
  asynchronous (start_service_by_name a b) s p callback userdata =
      Naming.start_service_by_name_async lib s p a b callback userdata
  asynchronous hello s p callback userdata = Naming.hello_async lib s p callback userdata
  asynchronous (name_has_owner a) s p callback userdata =
      Listing.name_has_owner_async lib s p a callback userdata
  asynchronous list_names s p callback userdata = Listing.list_names_async lib s p callback userdata
  asynchronous list_activatable_names s p callback userdata =
      Listing.list_activatable_names_async lib s p callback userdata
  asynchronous (add_match a) s p callback userdata =
      Listing.add_match_async lib s p a callback userdata
  asynchronous (remove_match a) s p callback userdata =
      Listing.remove_match_async lib s p a callback userdata
  asynchronous (get_name_owner a) s p callback userdata =
      Peers.get_name_owner_async lib s p a callback userdata
  asynchronous (list_queued_owners a) s p callback userdata =
      Peers.list_queued_owners_async lib s p a callback userdata
  asynchronous (get_connection_unix_user a) s p callback userdata =
      Peers.get_connection_unix_user_async lib s p a callback userdata
  asynchronous (get_connection_unix_process_id a) s p callback userdata =
      Peers.get_connection_unix_process_id_async lib s p a callback userdata
  asynchronous (get_connection_se_linux_security_context a) s p callback userdata =
      Peers.get_connection_se_linux_security_context_async lib s p a callback userdata
  asynchronous reload_config s p callback userdata =
      Peers.reload_config_async lib s p callback userdata
