-- ===== src/Connection/Queue.antt =====
-- The outgoing messages of a connection and their serials (dbus-cxx/connection.cpp).
use dbus_cxx.Common.{
  ℕ, zero, suc, ◌+◌, ◌<◌, ◌≤◌, ◌^◌, ◌≡◌, refl, sym, ap, ◌∙◌, List, [], ◌∷◌, ◌++◌, append_assoc,
  append-nil, Bool, not, if◌then◌else◌, some, length, get_elem?, true, arith,
}
use mathlib.Core.Option.{map}
use dbus_cxx.Message.{Message}
use dbus_cxx.Wire.Words.{u32}
use dbus_cxx.Wire.Reader.{Outcome, ok, abort, fault, raise, stuck}
use dbus_cxx.Connection.{
  Connection, OutgoingMessage, data_remains, usable_serial, queued, send, write_all, flush,
}

abbrev then_send : Outcome (ℕ × Connection) → (Connection → Outcome Connection) → Outcome Connection
then_send (ok (n, c)) f = f c
then_send abort f = abort
then_send fault f = fault
then_send raise f = raise
then_send stuck f = stuck

abbrev pub send_all : List Message → Connection → Outcome Connection
send_all [] c = ok c
send_all (m ∷ ms) c = then_send (send (some m) c) (send_all ms)

-- Messages with their serials, the next one being `n`.
abbrev pub numbered : ℕ → List Message → List OutgoingMessage
numbered n [] = []
numbered n (m ∷ ms) =
    record { msg = m; serial = usable_serial n } ∷ numbered (u32 (usable_serial n + 1)) ms

write_all-written :
    (os : List OutgoingMessage) (c : Connection)
    → ((write_all os c).written ≡ c.written ++ os) × ((write_all os c).outgoing ≡ [])
unfolding write_all
write_all-written [] c = (sym (append-nil c.written), refl)
write_all-written (o ∷ os) c =
    let rest = write_all-written os (record c { written = c.written ++ (o ∷ []) }) in
    (rest.0 ∙ append_assoc c.written (o ∷ []) os, rest.1)

flush_lem : (c : Connection) → c.valid ≡ true → flush c ≡ write_all c.outgoing c
unfolding flush
flush_lem c h = ap (λ (b : Bool). if not b then c else write_all c.outgoing c) h

abbrev after : Message → Connection → Connection
after m c = record (queued m (usable_serial c.current_serial) c) { status = data_remains }

send_lem :
    (m : Message) (c : Connection)
    → c.valid ≡ true
    → send (some m) c ≡ ok (usable_serial c.current_serial, after m c)
unfolding send
send_lem m c h =
    ap (λ (b : Bool). if not b then raise else ok (usable_serial c.current_serial, after m c)) h

sent :
    (ms : List Message) (c : Connection)
    → c.valid ≡ true
    → (d : Connection) × (send_all ms c ≡ ok d)
      × (d.valid ≡ true)
      × (d.written ≡ c.written)
      × (d.outgoing ≡ c.outgoing ++ numbered c.current_serial ms)
sent [] c h = (c, refl, h, refl, sym (append-nil c.outgoing))
sent (m ∷ ms) c h =
    let (d, e, valid, w, o) = sent ms (after m c) h in
    let first : send_all (m ∷ ms) c ≡ send_all ms (after m c) =
      ap (λ (r : Outcome (ℕ × Connection)). then_send r (send_all ms)) (send_lem m c h) in
    (
      d,
      first ∙ e,
      valid,
      w,
      o ∙ append_assoc c.outgoing _ (numbered (u32 (usable_serial c.current_serial + 1)) ms),
    )

-- On a valid connection any messages that are sent one after the other from another thread than
-- the dispatching one are all accepted, and the next flush hands them to the transport behind
-- those that were waiting, in the order in which they were sent and with the serials that the
-- connection counts, and leaves none waiting.
pub flush-send_all :
    (ms : List Message) (c : Connection)
    → c.valid ≡ true
    → (d : Connection) × (send_all ms c ≡ ok d)
      × ((flush d).written ≡ c.written ++ (c.outgoing ++ numbered c.current_serial ms))
      × ((flush d).outgoing ≡ [])
flush-send_all ms c h =
    let (d, e, valid, w, o) = sent ms c h in
    let out = write_all-written d.outgoing d in
    let all : d.written ++ d.outgoing ≡ c.written ++ (c.outgoing ++ numbered c.current_serial ms) =
      ap (λ (l : List OutgoingMessage). l ++ d.outgoing) w
      ∙ ap (λ (l : List OutgoingMessage). c.written ++ l) o in
    (
      d,
      e,
      ap (λ (f : Connection). f.written) (flush_lem d valid) ∙ out.0 ∙ all,
      ap (λ (f : Connection). f.outgoing) (flush_lem d valid) ∙ out.1,
    )

-- Where the next serial is not 0 and the serials do not reach 2 ^ 32, the message with index i
-- of those that are sent has the next serial plus i.
pub get_elem?-numbered :
    (ms : List Message) (n i : ℕ) (m : Message)
    → 0 < n
    → n + length ms ≤ 2 ^ 32
    → get_elem? ms i ≡ some m
    → get_elem? (numbered n ms) i ≡ some (record { msg = m; serial = n + i })
get_elem?-numbered [] n i m pos small h = absurd (cc h)
get_elem?-numbered (a ∷ ms) n zero m pos small h =
    let same : usable_serial n ≡ n + 0 = ground arith in
    rw same (ap (map (λ (x : Message). record { msg = x; serial = n + 0 })) h)
get_elem?-numbered (a ∷ []) n (suc i) m pos small h = absurd (cc h)
get_elem?-numbered (a ∷ b ∷ ms) n (suc i) m pos small h =
    let next : u32 (usable_serial n + 1) ≡ n + 1 = ground arith in
    let sum : n + 1 + i ≡ n + suc i = omega arith in
    ap (λ (k : ℕ). get_elem? (numbered k (b ∷ ms)) i) next
    ∙ get_elem?-numbered (b ∷ ms) (n + 1) i m (omega arith) (omega arith) h
    ∙ ap (λ (k : ℕ). some (record { msg = m; serial = k })) sum
