-- ===== src/Connection/Replies.antt =====
-- The replies that threads wait for (dbus-cxx/connection.cpp).
use dbus_cxx.Common.{
  ℕ, ◌≡◌, ◌≢◌, refl, ap, ◌∙◌, List, [], ◌∷◌, Option, some, none, Bool, not, true, if◌then◌else◌,
  ==_refl, arith,
}
use dbus_cxx.Message.{Message}
use dbus_cxx.Wire.Reader.{Outcome, ok, raise}
use dbus_cxx.Connection.{
  Connection, queued, find_response, set_response, expect, begin_blocking_call, reply_serial,
  answer, is_reply, data_remains, handle, process_single_message,
}

find_response-expect :
    (n : ℕ) (es : List (ℕ × Option Message)) → find_response n (expect n es) ≡ some none
unfolding find_response expect
find_response-expect n [] = rw (==_refl n)
find_response-expect n ((k, reply) ∷ es) = ground (arith, find_response-expect n es)

find_response-set_response :
    (n : ℕ) (m : Message) (es : List (ℕ × Option Message)) (r : Option Message)
    → find_response n es ≡ some r
    → find_response n (set_response n m es) ≡ some (some m)
unfolding find_response set_response
find_response-set_response n m [] r h = absurd (cc h)
find_response-set_response n m ((k, reply) ∷ es) r h =
    ground (arith, find_response-set_response n m es r)

-- The other entries are as they were.
set_response-other :
    (n j : ℕ) (m : Message) (es : List (ℕ × Option Message))
    → j ≢ n
    → find_response j (set_response n m es) ≡ find_response j es
unfolding find_response set_response
set_response-other n j m [] h = refl
set_response-other n j m ((k, reply) ∷ es) h = ground (arith, set_response-other n j m es h)

expect-other :
    (n j : ℕ) (es : List (ℕ × Option Message))
    → j ≢ n
    → find_response j (expect n es) ≡ find_response j es
unfolding find_response expect
expect-other n j [] h = ground arith
expect-other n j ((k, reply) ∷ es) h = ground (arith, expect-other n j es h)

answered :
    (c : Connection) (n : ℕ) (m : Message) (r : Option Message)
    → find_response n c.expecting ≡ some r
    → answer (ok n) m c ≡ ok (record c { expecting = set_response n m c.expecting })
answered c n m r h = rw h

-- The reply at the head of the queue, and what is left behind it.
processed :
    (on_call on_signal : Message → Connection → Connection) (c : Connection) (m : Message)
    (ms : List Message) (n : ℕ) (r : Option Message)
    → is_reply m.kind ≡ true
    → reply_serial m ≡ ok n
    → find_response n c.expecting ≡ some r
    → process_single_message on_call on_signal (record c { incoming = m ∷ ms })
      ≡ ok (record c { incoming = ms; expecting = set_response n m c.expecting })
unfolding process_single_message
processed on_call on_signal c m ms n r reply serial waits =
    ap
      (λ (b : Bool).
        if b
        then answer (reply_serial m) m (record c { incoming = ms })
        else ok (handle on_call on_signal m.kind m (record c { incoming = ms })))
      reply
    ∙ ap (λ (o : Outcome ℕ). answer o m (record c { incoming = ms })) serial
    ∙ answered (record c { incoming = ms }) n m r waits

-- A blocking call from another thread than the dispatching one on a valid connection is given
-- the current serial; and when a return or an error that names this serial is the next incoming
-- message, the dispatching thread takes it from the queue and puts it where the calling thread
-- waits for it, and what other threads wait for is as it was.
pub begin_blocking_call-reply :
    (on_call on_signal : Message → Connection → Connection) (c : Connection) (q m : Message)
    (ms : List Message)
    → c.valid ≡ true
    → is_reply m.kind ≡ true
    → reply_serial m ≡ ok c.current_serial
    → (d : Connection) × (e : Connection) × (begin_blocking_call q c ≡ ok (c.current_serial, d))
      × (process_single_message on_call on_signal (record d { incoming = m ∷ ms }) ≡ ok e)
      × (e.incoming ≡ ms)
      × (find_response c.current_serial e.expecting ≡ some (some m))
      × ((j : ℕ) → j ≢ c.current_serial → find_response j e.expecting ≡ find_response j c.expecting)
unfolding begin_blocking_call
begin_blocking_call-reply on_call on_signal c q m ms valid reply serial =
    let n : ℕ = c.current_serial in
    let es : List (ℕ × Option Message) = expect n c.expecting in
    let d : Connection = record (queued q n c) { expecting = es; status = data_remains } in
    (
      d,
      record d { incoming = ms; expecting = set_response n m es },
      ap (λ (b : Bool). if not b then raise else ok (n, d)) valid,
      processed on_call on_signal d m ms n none reply serial (find_response-expect n c.expecting),
      refl,
      find_response-set_response n m es none (find_response-expect n c.expecting),
      λ j other. set_response-other n j m es other ∙ expect-other n j c.expecting other,
    )
