-- ===== src/Message/Equality.antt =====
-- The comparison of messages (dbus-cxx/message.cpp).
use dbus_cxx.Common.{
  ◌≡◌, ◌↔◌, refl, sym, List, [], ◌∷◌, Bool, Bool-cases, inl, inr, true, ◌&&◌, if◌then◌else◌, ◌==◌,
  ==_refl, arith,
}
use dbus_cxx.Types.{type_number}
use dbus_cxx.Header.{
  MessageHeaderFields, MessageType, path_field, member_field, sender_field, unix_fds_field,
  interface_field, signature_field, error_name_field, destination_field, reply_serial_field,
}
use dbus_cxx.Message.{Message, header_field}
use dbus_cxx.Message.Format.{message_code}
use dbus_cxx.Wire.Variant.{Variant}
use dbus_cxx.Wire.Variant.Conversions.{equals, same_bytes}
use dbus_cxx.Wire.Variant.Converted.{same_type-≡}
use dbus_cxx.Wire.Variant.Equality.{both, same_bytes-≡, same_bytes_refl}

-- The fields that are compared.
abbrev compared_fields : List MessageHeaderFields
compared_fields =
    path_field ∷ member_field ∷ sender_field ∷ unix_fds_field ∷ interface_field ∷ signature_field
    ∷ error_name_field ∷ destination_field ∷ reply_serial_field ∷ []

abbrev fields_equal : List MessageHeaderFields → Message → Message → Bool
fields_equal [] a b = true
fields_equal (f ∷ fs) a b = equals (header_field f a) (header_field f b) && fields_equal fs a b

-- `operator==`, of `a` with `b`. The type is compared by its code, of which each type has its own.
unfoldable pub equal_messages : Message → Message → Bool
equal_messages a b =
    if message_code b.kind == message_code a.kind
    then fields_equal compared_fields a b && same_bytes a.body b.body
    else Bool.false

-- What is compared of two variants.
abbrev AreAlike : Variant → Variant → Type 0
AreAlike v w = (v.current_type ≡ w.current_type) × (v.marshaled ≡ w.marshaled)

AreAlike-equals : (v w : Variant) → (equals v w ≡ true) ↔ AreAlike v w
unfolding equals
AreAlike-equals v w = (
  λ h.
      let (types, bytes) = both _ _ h in
      (
        sym (same_type-≡ w.current_type v.current_type types),
        sym (same_bytes-≡ w.marshaled v.marshaled bytes),
      ),
  λ h. rw (h.0, h.1, ==_refl (type_number w.current_type), same_bytes_refl w.marshaled),
)

-- The fields, one by one.
abbrev AllAlike : List MessageHeaderFields → Message → Message → Type 0
AllAlike [] a b = Unit
AllAlike (f ∷ fs) a b = AreAlike (header_field f a) (header_field f b) × AllAlike fs a b

fields_equal_iff :
    (fs : List MessageHeaderFields) (a b : Message) → (fields_equal fs a b ≡ true) ↔ AllAlike fs a b
fields_equal_iff [] a b = (λ h. tt, λ h. refl)
fields_equal_iff (f ∷ fs) a b =
    let one : (equals (header_field f a) (header_field f b) ≡ true)
        ↔ AreAlike (header_field f a) (header_field f b) =
      AreAlike-equals (header_field f a) (header_field f b) in
    let more : (fields_equal fs a b ≡ true) ↔ AllAlike fs a b = fields_equal_iff fs a b in
    (λ h. let (x, y) = both _ _ h in (one.0 x, more.0 y), λ h. rw (one.1 h.0, more.1 h.1))

-- The field `f` of two messages.
abbrev SameField : MessageHeaderFields → Message → Message → Type 0
SameField f a b = AreAlike (header_field f a) (header_field f b)

-- All fields of the specification, as it names them.
abbrev pub SameFields : Message → Message → Type 0
SameFields a b =
    SameField path_field a b
    × SameField interface_field a b
    × SameField member_field a b
    × SameField error_name_field a b
    × SameField reply_serial_field a b
    × SameField destination_field a b
    × SameField sender_field a b
    × SameField signature_field a b
    × SameField unix_fds_field a b

AllAlike-SameFields : (a b : Message) → AllAlike compared_fields a b ↔ SameFields a b
AllAlike-SameFields a b = (
  λ h. (
    h.0, h.1.1.1.1.0, h.1.0, h.1.1.1.1.1.1.0, h.1.1.1.1.1.1.1.1.0, h.1.1.1.1.1.1.1.0, h.1.1.0,
    h.1.1.1.1.1.0, h.1.1.1.0,
  ),
  λ h. (h.0, (h.2, (h.6, (h.8, (h.1, (h.7, (h.3, (h.5, (h.4, tt))))))))),
)

same_code-≡ : (k l : MessageType) → (message_code l == message_code k) ≡ true → k ≡ l
same_code-≡ k l h = ground arith

compared :
    {x y z : Bool} → x ≡ true → y ≡ true → z ≡ true → (if x then y && z else Bool.false) ≡ true
compared h g k = rw (h, g, k)

-- Two messages are equal by operator== exactly where they are of one kind, for each of the nine
-- header fields that the specification names the variants that header_field gives have the same
-- type and the same bytes, and their bodies are the same.
pub equal_messages_iff :
    (a b : Message)
    → (equal_messages a b ≡ true) ↔ ((a.kind ≡ b.kind) × SameFields a b × (a.body ≡ b.body))
unfolding equal_messages
equal_messages_iff a b = (
  λ h. elim (Bool-cases (message_code b.kind == message_code a.kind)) [
    | inl e ↦
        let (fields, bodies) = both _ _ (rw e at h) in
        (
          same_code-≡ a.kind b.kind e,
          (AllAlike-SameFields a b).0 ((fields_equal_iff compared_fields a b).0 fields),
          same_bytes-≡ a.body b.body bodies,
        )
    | inr e ↦ absurd (cc (rw e at h))
  ],
  λ h.
      compared (rw h.0 (==_refl (message_code b.kind)))
        ((fields_equal_iff compared_fields a b).1 ((AllAlike-SameFields a b).1 h.1))
        (rw h.2 (same_bytes_refl b.body)),
)
