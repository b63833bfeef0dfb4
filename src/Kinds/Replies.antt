-- ===== src/Kinds/Replies.antt =====
-- The replies to a call (dbus-cxx/callmessage.cpp and returnmessage.cpp).
use dbus_cxx.Common.{
  ℕ, ◌<◌, ◌^◌, ◌≡◌, refl, sym, ap, ◌∙◌, List, some, none, Bool, Bool-cases, inl, inr, true, not,
  if◌then◌else◌,
}
use dbus_cxx.Header.{MessageType, return, reply_serial_field, destination_field}
use dbus_cxx.Message
use dbus_cxx.Message.{
  Message, header_field, set_header_field, set_destination, destination, sender, invalidate,
}
use dbus_cxx.Message.Fields.{header_field-set_header_field, destination-set_destination}
use dbus_cxx.Validator.{validate_bus_name}
use dbus_cxx.Wire.Reader.{Outcome, ok, and_then}
use dbus_cxx.Wire.Variant.{
  Variant, variant_of, uint32_value, string_value, to_uint32, is_uint32_type,
}
use dbus_cxx.Wire.Variants.{to_uint32-variant_of}
use dbus_cxx.Connection.{reply_serial}
use dbus_cxx.Kinds.{set_reply_serial}
use dbus_cxx.Kinds.CallMessage.{expects_reply, answer, answered, create_reply}

-- The answer before it is known whether one is expected.
abbrev pub addressed : MessageType → ℕ → List ℕ → Message
addressed kind n s =
    (set_header_field destination_field (variant_of (string_value s))
      (set_reply_serial n (Message.create kind))).0

addressed_lem :
    (kind : MessageType) (n : ℕ) (s : List ℕ)
    → validate_bus_name s ≡ true
    → (set_destination s (set_reply_serial n (Message.create kind))).0 ≡ addressed kind n s
unfolding set_destination set_header_field
addressed_lem kind n s named = rw named

pub reply_serial-addressed :
    (kind : MessageType) (n : ℕ) (s : List ℕ)
    → n < 2 ^ 32
    → reply_serial (addressed kind n s) ≡ ok n
unfolding reply_serial set_reply_serial variant_of
reply_serial-addressed kind n s small =
    let field : header_field reply_serial_field (addressed kind n s) ≡ variant_of (uint32_value n) =
      (header_field-set_header_field destination_field (variant_of (string_value s))
          (set_reply_serial n (Message.create kind))).2
        reply_serial_field (λ e. cc e)
      ∙ (header_field-set_header_field reply_serial_field (variant_of (uint32_value n))
          (Message.create kind)).0 in
    ap (λ (v : Variant). if is_uint32_type v.current_type then to_uint32 v else ok 0) field
    ∙ to_uint32-variant_of n small

destination-addressed :
    (kind : MessageType) (n : ℕ) (s : List ℕ)
    → validate_bus_name s ≡ true
    → destination (addressed kind n s) ≡ ok s
destination-addressed kind n s named =
    ap destination (sym (addressed_lem kind n s named))
    ∙ (destination-set_destination s (set_reply_serial n (Message.create kind))).1 named

answer_lem :
    (kind : MessageType) (msg : Message) (s : List ℕ)
    → validate_bus_name s ≡ true
    → answer kind msg s ≡ record (addressed kind msg.serial s) { valid = not (expects_reply msg) }
unfolding expects_reply invalidate set_header_field set_reply_serial Message.create
answer_lem kind msg s named =
    ap (λ (m : Message). if expects_reply msg then invalidate m else m)
      (addressed_lem kind msg.serial s named)
    ∙ (elim (Bool-cases (expects_reply msg)) [
      | inl e ↦ rw (e, expects_reply)
      | inr e ↦ rw (e, expects_reply)
    ])

-- The answer of either kind to a valid call with a serial below 2 ^ 32 that a bus name sent.
pub answered-answer :
    (kind : MessageType) (msg : Message) (s : List ℕ)
    → msg.valid ≡ true
    → sender msg ≡ ok s
    → validate_bus_name s ≡ true
    → answered kind msg
      ≡ ok (some (record (addressed kind msg.serial s) { valid = not (expects_reply msg) }))
answered-answer kind msg s valid sent named =
    ap
      (λ (b : Bool).
        if not b then ok none else and_then (sender msg) (λ from. ok (some (answer kind msg from))))
      valid
    ∙ ap (λ (o : Outcome (List ℕ)). and_then o (λ from. ok (some (answer kind msg from)))) sent
    ∙ ap (λ (m : Message). ok (some m)) (answer_lem kind msg s named)

-- create_reply of a valid call with a serial below 2 ^ 32 that a bus name sent makes a return
-- message that answers the serial of the call and goes to its sender; it is valid exactly where
-- expects_reply returns false.
pub create_reply-reply_serial :
    (msg : Message) (s : List ℕ)
    → msg.valid ≡ true
    → sender msg ≡ ok s
    → validate_bus_name s ≡ true
    → msg.serial < 2 ^ 32
    → (reply : Message) × (create_reply msg ≡ ok (some reply))
      × (reply.kind ≡ return)
      × (reply_serial reply ≡ ok msg.serial)
      × (destination reply ≡ ok s)
      × (reply.valid ≡ not (expects_reply msg))
unfolding create_reply reply_serial destination set_header_field set_reply_serial Message.create
    header_field
create_reply-reply_serial msg s valid sent named small = (
  record (addressed return msg.serial s) { valid = not (expects_reply msg) },
  answered-answer return msg s valid sent named,
  refl,
  reply_serial-addressed return msg.serial s small,
  destination-addressed return msg.serial s named,
  refl,
)
