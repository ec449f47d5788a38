-- ===== src/DBus/Protocol/Errors.antt =====
-- The error names of rootfs/usr/include/dbus-1.0/dbus/dbus-protocol.h, and the enumeration
-- `DBusGError` of rootfs/usr/include/dbus-1.0/dbus/dbus-glib.h that is made from them.
pub mod Laws
use chronos_updates.Common.{ℕ, suc, String, Option, none, some, List, [], ◌∷◌}

-- `DBUS_ERROR_*`.
pub data ErrorName : Type 0 where
  failed no_memory service_unknown name_has_no_owner : ErrorName
  no_reply io_error bad_address not_supported : ErrorName
  limits_exceeded access_denied auth_failed no_server : ErrorName
  timeout no_network address_in_use disconnected : ErrorName
  invalid_args file_not_found file_exists unknown_method : ErrorName
  timed_out match_rule_not_found match_rule_invalid spawn_exec_failed : ErrorName
  spawn_fork_failed spawn_child_exited spawn_child_signaled spawn_failed : ErrorName
  spawn_setup_failed spawn_config_invalid spawn_service_invalid spawn_service_not_found : ErrorName
  spawn_permissions_invalid spawn_file_invalid spawn_no_memory unix_process_id_unknown : ErrorName
  invalid_signature invalid_file_content selinux_security_context_unknown adt_audit_data_unknown :
      ErrorName
  object_path_in_use : ErrorName

pub error_name : ErrorName → String
error_name failed = "org.freedesktop.DBus.Error.Failed"
error_name no_memory = "org.freedesktop.DBus.Error.NoMemory"
error_name service_unknown = "org.freedesktop.DBus.Error.ServiceUnknown"
error_name name_has_no_owner = "org.freedesktop.DBus.Error.NameHasNoOwner"
error_name no_reply = "org.freedesktop.DBus.Error.NoReply"
error_name io_error = "org.freedesktop.DBus.Error.IOError"
error_name bad_address = "org.freedesktop.DBus.Error.BadAddress"
error_name not_supported = "org.freedesktop.DBus.Error.NotSupported"
error_name limits_exceeded = "org.freedesktop.DBus.Error.LimitsExceeded"
error_name access_denied = "org.freedesktop.DBus.Error.AccessDenied"
error_name auth_failed = "org.freedesktop.DBus.Error.AuthFailed"
error_name no_server = "org.freedesktop.DBus.Error.NoServer"
error_name timeout = "org.freedesktop.DBus.Error.Timeout"
error_name no_network = "org.freedesktop.DBus.Error.NoNetwork"
error_name address_in_use = "org.freedesktop.DBus.Error.AddressInUse"
error_name disconnected = "org.freedesktop.DBus.Error.Disconnected"
error_name invalid_args = "org.freedesktop.DBus.Error.InvalidArgs"
error_name file_not_found = "org.freedesktop.DBus.Error.FileNotFound"
error_name file_exists = "org.freedesktop.DBus.Error.FileExists"
error_name unknown_method = "org.freedesktop.DBus.Error.UnknownMethod"
error_name timed_out = "org.freedesktop.DBus.Error.TimedOut"
error_name match_rule_not_found = "org.freedesktop.DBus.Error.MatchRuleNotFound"
error_name match_rule_invalid = "org.freedesktop.DBus.Error.MatchRuleInvalid"
error_name spawn_exec_failed = "org.freedesktop.DBus.Error.Spawn.ExecFailed"
error_name spawn_fork_failed = "org.freedesktop.DBus.Error.Spawn.ForkFailed"
error_name spawn_child_exited = "org.freedesktop.DBus.Error.Spawn.ChildExited"
error_name spawn_child_signaled = "org.freedesktop.DBus.Error.Spawn.ChildSignaled"
error_name spawn_failed = "org.freedesktop.DBus.Error.Spawn.Failed"
error_name spawn_setup_failed = "org.freedesktop.DBus.Error.Spawn.FailedToSetup"
error_name spawn_config_invalid = "org.freedesktop.DBus.Error.Spawn.ConfigInvalid"
error_name spawn_service_invalid = "org.freedesktop.DBus.Error.Spawn.ServiceNotValid"
error_name spawn_service_not_found = "org.freedesktop.DBus.Error.Spawn.ServiceNotFound"
error_name spawn_permissions_invalid = "org.freedesktop.DBus.Error.Spawn.PermissionsInvalid"
error_name spawn_file_invalid = "org.freedesktop.DBus.Error.Spawn.FileInvalid"
error_name spawn_no_memory = "org.freedesktop.DBus.Error.Spawn.NoMemory"
error_name unix_process_id_unknown = "org.freedesktop.DBus.Error.UnixProcessIdUnknown"
error_name invalid_signature = "org.freedesktop.DBus.Error.InvalidSignature"
error_name invalid_file_content = "org.freedesktop.DBus.Error.InvalidFileContent"
error_name selinux_security_context_unknown =
    "org.freedesktop.DBus.Error.SELinuxSecurityContextUnknown"
error_name adt_audit_data_unknown = "org.freedesktop.DBus.Error.AdtAuditDataUnknown"
error_name object_path_in_use = "org.freedesktop.DBus.Error.ObjectPathInUse"

-- The names in the order of the header.
abbrev pub error_names : List ErrorName
error_names =
    failed ∷ no_memory ∷ service_unknown ∷ name_has_no_owner ∷ no_reply ∷ io_error ∷ bad_address
    ∷ not_supported ∷ limits_exceeded ∷ access_denied ∷ auth_failed ∷ no_server ∷ timeout
    ∷ no_network ∷ address_in_use ∷ disconnected ∷ invalid_args ∷ file_not_found ∷ file_exists
    ∷ unknown_method ∷ timed_out ∷ match_rule_not_found ∷ match_rule_invalid ∷ spawn_exec_failed
    ∷ spawn_fork_failed ∷ spawn_child_exited ∷ spawn_child_signaled ∷ spawn_failed
    ∷ spawn_setup_failed ∷ spawn_config_invalid ∷ spawn_service_invalid ∷ spawn_service_not_found
    ∷ spawn_permissions_invalid ∷ spawn_file_invalid ∷ spawn_no_memory ∷ unix_process_id_unknown
    ∷ invalid_signature ∷ invalid_file_content ∷ selinux_security_context_unknown
    ∷ adt_audit_data_unknown ∷ object_path_in_use ∷ []

-- `DBusGError`.
pub data DBusGError : Type 0 where
  gerror_failed gerror_no_memory gerror_service_unknown gerror_name_has_no_owner : DBusGError
  gerror_no_reply gerror_io_error gerror_bad_address gerror_not_supported : DBusGError
  gerror_limits_exceeded gerror_access_denied gerror_auth_failed gerror_no_server : DBusGError
  gerror_timeout gerror_no_network gerror_address_in_use gerror_disconnected : DBusGError
  gerror_invalid_args gerror_file_not_found gerror_file_exists gerror_unknown_method : DBusGError
  gerror_timed_out gerror_match_rule_not_found gerror_match_rule_invalid gerror_spawn_exec_failed :
      DBusGError
  gerror_spawn_fork_failed gerror_spawn_child_exited gerror_spawn_child_signaled
        gerror_spawn_failed :
      DBusGError
  gerror_unix_process_id_unknown gerror_invalid_signature gerror_invalid_file_content
        gerror_selinux_security_context_unknown :
      DBusGError
  gerror_remote_exception : DBusGError

-- The value of an enumerator.
pub gerror_value : DBusGError → ℕ
gerror_value gerror_failed = 0
gerror_value gerror_no_memory = 1
gerror_value gerror_service_unknown = 2
gerror_value gerror_name_has_no_owner = 3
gerror_value gerror_no_reply = 4
gerror_value gerror_io_error = 5
gerror_value gerror_bad_address = 6
gerror_value gerror_not_supported = 7
gerror_value gerror_limits_exceeded = 8
gerror_value gerror_access_denied = 9
gerror_value gerror_auth_failed = 10
gerror_value gerror_no_server = 11
gerror_value gerror_timeout = 12
gerror_value gerror_no_network = 13
gerror_value gerror_address_in_use = 14
gerror_value gerror_disconnected = 15
gerror_value gerror_invalid_args = 16
gerror_value gerror_file_not_found = 17
gerror_value gerror_file_exists = 18
gerror_value gerror_unknown_method = 19
gerror_value gerror_timed_out = 20
gerror_value gerror_match_rule_not_found = 21
gerror_value gerror_match_rule_invalid = 22
gerror_value gerror_spawn_exec_failed = 23
gerror_value gerror_spawn_fork_failed = 24
gerror_value gerror_spawn_child_exited = 25
gerror_value gerror_spawn_child_signaled = 26
gerror_value gerror_spawn_failed = 27
gerror_value gerror_unix_process_id_unknown = 28
gerror_value gerror_invalid_signature = 29
gerror_value gerror_invalid_file_content = 30
gerror_value gerror_selinux_security_context_unknown = 31
gerror_value gerror_remote_exception = 32

-- The error name that an enumerator is spelled after; `DBUS_GERROR_REMOTE_EXCEPTION` has none.
pub named_after : DBusGError → Option ErrorName
named_after gerror_failed = some failed
named_after gerror_no_memory = some no_memory
named_after gerror_service_unknown = some service_unknown
named_after gerror_name_has_no_owner = some name_has_no_owner
named_after gerror_no_reply = some no_reply
named_after gerror_io_error = some io_error
named_after gerror_bad_address = some bad_address
named_after gerror_not_supported = some not_supported
named_after gerror_limits_exceeded = some limits_exceeded
named_after gerror_access_denied = some access_denied
named_after gerror_auth_failed = some auth_failed
named_after gerror_no_server = some no_server
named_after gerror_timeout = some timeout
named_after gerror_no_network = some no_network
named_after gerror_address_in_use = some address_in_use
named_after gerror_disconnected = some disconnected
named_after gerror_invalid_args = some invalid_args
named_after gerror_file_not_found = some file_not_found
named_after gerror_file_exists = some file_exists
named_after gerror_unknown_method = some unknown_method
named_after gerror_timed_out = some timed_out
named_after gerror_match_rule_not_found = some match_rule_not_found
named_after gerror_match_rule_invalid = some match_rule_invalid
named_after gerror_spawn_exec_failed = some spawn_exec_failed
named_after gerror_spawn_fork_failed = some spawn_fork_failed
named_after gerror_spawn_child_exited = some spawn_child_exited
named_after gerror_spawn_child_signaled = some spawn_child_signaled
named_after gerror_spawn_failed = some spawn_failed
named_after gerror_unix_process_id_unknown = some unix_process_id_unknown
named_after gerror_invalid_signature = some invalid_signature
named_after gerror_invalid_file_content = some invalid_file_content
named_after gerror_selinux_security_context_unknown = some selinux_security_context_unknown
named_after gerror_remote_exception = none
