-- ===== src/Arguments/Vectors.antt =====
-- The signatures of vectors whose elements are no containers (dbus-cxx/signature.cpp,
-- messageappenditerator.cpp and messageiterator.cpp).
use dbus_cxx.Common.{◌≡◌, refl, [], ◌∷◌, true, false, inl, inr, arith}
use dbus_cxx.Types
use dbus_cxx.Types.{
  DataType, invalid, byte, boolean, int16, uint16, int32, uint32, int64, uint64, double, string,
  object_path, signature, array, variant, struct, dict_entry, unix_fd, array_type, alignment,
  type_number, is_container,
}
use dbus_cxx.Signature.{
  null, node, signature_of, create_signature_tree, enter, loop, round, bottom, close, after_sub,
  is_invalid,
}
use dbus_cxx.Signature.Iterator
use dbus_cxx.Signature.Iterator.{begin}
use dbus_cxx.Wire.Padding.{IsWidth}
use dbus_cxx.Arguments.Containers.{container_alignment}

-- A type that is no container.
abbrev pub IsSimple : DataType → Type 0
IsSimple t = (is_invalid t ≡ false) × (is_container t ≡ false)

-- What the code finds in the signature of a vector of elements of the type `t`.
abbrev pub IsVector : DataType → Type 0
IsVector t =
    (container_alignment array_type (type_number t ∷ []) ≡ alignment t)
    × IsWidth (alignment t)
    × (begin (signature_of (b'a' ∷ type_number t ∷ [])) ≡ record {
      valid = true;
      current = node array (node t null null) null;
      first = node array (node t null null) null;
    })

pub simple-IsVector : (t : DataType) → IsSimple t → IsVector t
unfolding container_alignment alignment signature_of create_signature_tree enter loop round bottom
    close after_sub begin Iterator.type_of Iterator.iterator_of Types.char_to_dbus_type
    Types.char_to_container_type Types.is_ending_container Types.is_basic is_container
simple-IsVector invalid (e, h) = absurd (ground arith)
simple-IsVector byte h = (refl, inl refl, refl)
simple-IsVector boolean h = (refl, inr (inr (inl refl)), refl)
simple-IsVector int16 h = (refl, inr (inl refl), refl)
simple-IsVector uint16 h = (refl, inr (inl refl), refl)
simple-IsVector int32 h = (refl, inr (inr (inl refl)), refl)
simple-IsVector uint32 h = (refl, inr (inr (inl refl)), refl)
simple-IsVector int64 h = (refl, inr (inr (inr refl)), refl)
simple-IsVector uint64 h = (refl, inr (inr (inr refl)), refl)
simple-IsVector double h = (refl, inr (inr (inr refl)), refl)
simple-IsVector string h = (refl, inr (inr (inl refl)), refl)
simple-IsVector object_path h = (refl, inr (inr (inl refl)), refl)
simple-IsVector signature h = (refl, inl refl, refl)
simple-IsVector array (h, e) = absurd (ground arith)
simple-IsVector variant (h, e) = absurd (ground arith)
simple-IsVector struct (h, e) = absurd (ground arith)
simple-IsVector dict_entry (h, e) = absurd (ground arith)
simple-IsVector unix_fd h = (refl, inr (inr (inl refl)), refl)
