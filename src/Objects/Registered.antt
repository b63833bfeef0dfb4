-- ===== src/Objects/Registered.antt =====
-- The path handlers of a connection as a function from paths (dbus-cxx/connection.cpp).
use dbus_cxx.Common.{Bool}
use dbus_cxx.Objects.Paths.{Paths, RegistrationStatus}
use dbus_cxx.Objects.Registry.{is_success, Registry}

abbrev with_success : Paths × RegistrationStatus → Paths × Bool
with_success r = (r.0, is_success r.1)
