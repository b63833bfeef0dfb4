-- ===== src/Signature/Tests.antt =====
-- Runs of the parser.
use dbus_cxx.Common.{codes, ◌≡◌, refl, true, false}
use dbus_cxx.Types.{
  array, int32, dict_entry, boolean, byte, variant, char_to_dbus_type, char_to_container_type,
  is_ending_container, is_basic, is_container,
}
use dbus_cxx.Signature.{
  null, node, signature_of, create_signature_tree, loop, round, enter, bottom, close, after_sub,
}

nested_struct : (signature_of (codes "(i(id))")).valid ≡ true
unfolding signature_of create_signature_tree loop round enter bottom close after_sub
    char_to_dbus_type char_to_container_type is_ending_container is_basic is_container
nested_struct = refl

dict :
    (signature_of (codes "a{yv}")).starting_node
    ≡ node array (node dict_entry (node byte null (node variant null null)) null) null
unfolding signature_of create_signature_tree loop round enter bottom close after_sub
    char_to_dbus_type char_to_container_type is_ending_container is_basic is_container
dict = refl

struct_sibling : (signature_of (codes "((ii)i)")).valid ≡ false
unfolding signature_of create_signature_tree loop round enter bottom close after_sub
    char_to_dbus_type char_to_container_type is_ending_container is_basic is_container
struct_sibling = refl

unbalanced : (signature_of (codes "(b")).valid ≡ false
unfolding signature_of create_signature_tree loop round enter bottom close after_sub
    char_to_dbus_type char_to_container_type is_ending_container is_basic is_container
unbalanced = refl

-- The array of Booleans takes the `i` in.
bool_array :
    (signature_of (codes "abi")).starting_node
    ≡ node array (node boolean null (node int32 null null)) null
unfolding signature_of create_signature_tree loop round enter bottom close after_sub
    char_to_dbus_type char_to_container_type is_ending_container is_basic is_container
bool_array = refl
