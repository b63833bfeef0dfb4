-- ===== src/Objects/Introspection.antt =====
-- The description of an object that it gives on the bus (dbus-cxx/object.cpp and interface.cpp).
use dbus_cxx.Common.{ℕ, ◌+◌, List, [], ◌∷◌, ◌++◌, codes, replicate}
use dbus_cxx.Objects.{Method, Property, Interface, Object, Heap}

abbrev methods_text : ℕ → List (List ℕ × Method) → List ℕ
methods_text depth [] = []
methods_text depth ((k, m) ∷ rest) = m.introspection depth ++ methods_text depth rest

abbrev properties_text : ℕ → List Property → List ℕ
properties_text depth [] = []
properties_text depth (p ∷ rest) = p.introspection depth ++ properties_text depth rest

-- Interface::introspect, for an interface with no signals.
unfoldable pub interface_text : ℕ → Interface → List ℕ
interface_text space_depth i =
    let spaces : List ℕ = replicate space_depth b' ' in
    spaces
    ++ codes "<interface name=\""
    ++ i.name
    ++ codes "\">\n"
    ++ methods_text (space_depth + 2) i.methods
    ++ properties_text (space_depth + 2) i.properties
    ++ spaces
    ++ codes "</interface>\n"

abbrev interfaces_text : ℕ → Heap → List (List ℕ × ℕ) → List ℕ
interfaces_text depth h [] = []
interfaces_text depth h ((k, n) ∷ rest) = interface_text depth (h n) ++ interfaces_text depth h rest

abbrev children_text : List ℕ → List (List ℕ) → List ℕ
children_text spaces [] = []
children_text spaces (c ∷ cs) =
    spaces ++ codes "  <node name=\"" ++ c ++ codes "\"/>\n" ++ children_text spaces cs

abbrev lines : List ℕ → List (List ℕ) → List ℕ
lines spaces [] = []
lines spaces (l ∷ ls) = spaces ++ l ++ codes "\n" ++ lines spaces ls

-- The interfaces that every object has.
abbrev standard_interfaces : List (List ℕ)
standard_interfaces =
    codes "  <interface name=\"org.freedesktop.DBus.Introspectable\">"
    ∷ codes "    <method name=\"Introspect\">"
    ∷ codes "      <arg name=\"data\" type=\"s\" direction=\"out\"/>"
    ∷ codes "    </method>"
    ∷ codes "  </interface>"
    ∷ codes "  <interface name=\"org.freedesktop.DBus.Peer\">"
    ∷ codes "    <method name=\"Ping\" />"
    ∷ codes "    <method name=\"GetMachineId\">"
    ∷ codes "      <arg name=\"machine_uuid\" type=\"s\" direction=\"out\"/>"
    ∷ codes "    </method>"
    ∷ codes "  </interface>"
    ∷ codes "  <interface name=\"org.freedesktop.DBus.Properties\">"
    ∷ codes "    <method name=\"Get\">"
    ∷ codes "        <arg type=\"s\" name=\"interface_name\" direction=\"in\"/>"
    ∷ codes "        <arg type=\"s\" name=\"property_name\" direction=\"in\"/>"
    ∷ codes "        <arg type=\"v\" name=\"value\" direction=\"out\"/>"
    ∷ codes "      </method>"
    ∷ codes "      <method name=\"GetAll\">"
    ∷ codes "        <arg type=\"s\" name=\"interface_name\" direction=\"in\"/>"
    ∷ codes "        <arg type=\"a{sv}\" name=\"properties\" direction=\"out\"/>"
    ∷ codes "      </method>"
    ∷ codes "      <method name=\"Set\">"
    ∷ codes "        <arg type=\"s\" name=\"interface_name\" direction=\"in\"/>"
    ∷ codes "        <arg type=\"s\" name=\"property_name\" direction=\"in\"/>"
    ∷ codes "        <arg type=\"v\" name=\"value\" direction=\"in\"/>"
    ∷ codes "      </method>"
    ∷ codes "      <signal name=\"PropertiesChanged\">"
    ∷ codes "       <arg type=\"s\" name=\"interface_name\"/>"
    ∷ codes "        <arg type=\"a{sv}\" name=\"changed_properties\"/>"
    ∷ codes "        <arg type=\"as\" name=\"invalidated_properties\"/>"
    ∷ codes "      </signal>"
    ∷ codes "  </interface>"
    ∷ []

unfoldable pub introspect : ℕ → Object → Heap → List ℕ
introspect space_depth o h =
    let spaces : List ℕ = replicate space_depth b' ' in
    spaces
    ++ codes "<node name=\""
    ++ o.path
    ++ codes "\">\n"
    ++ lines spaces standard_interfaces
    ++ interfaces_text (space_depth + 2) h o.interfaces
    ++ children_text spaces o.children
    ++ spaces
    ++ codes "</node>\n"

-- DBUSCXX_INTROSPECT_1_0_XML_DOCTYPE_DECL_NODE of dbus-cxx/connection.h.
abbrev pub doctype : List ℕ
doctype =
    codes
      "<!DOCTYPE node PUBLIC \"-//freedesktop//DTD D-BUS Object Introspection 1.0//EN\"\n\"http://www.freedesktop.org/standards/dbus/1.0/introspect.dtd\">\n"
