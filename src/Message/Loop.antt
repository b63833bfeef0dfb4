-- ===== src/Message/Loop.antt =====
-- The loop over the header array in Message::create_from_data (dbus-cxx/message.cpp).
use dbus_cxx.Common.{
  ℕ, zero, suc, ◌+◌, ◌<◌, ◌≤◌, ◌^◌, ◌≡◌, ◌∙◌, true, false, List, [], ◌∷◌, ◌++◌, length,
  length-append, append_assoc, append-nil, ltb, lt→ltb, arith, replicate,
}
use dbus_cxx.Header.{MessageHeaderFields, header_field_to_int}
use dbus_cxx.Message.{HeaderMap}
use dbus_cxx.Message.Parse.{Headers, demarshal_header, demarshal_headers}
use dbus_cxx.Message.Entry.{
  variant_bytes, entry_bytes, IsHeaderValue, demarshal_header-marshal_header,
}
use dbus_cxx.Message.Entries.{
  Fields, map_of, entries_bytes, Ascends, Below, Below-append, CountsFds, Readable, own_fds, fds_of,
  store_lem,
}
use dbus_cxx.Wire.Words.{big}
use dbus_cxx.Wire.Padding.{padding}
use dbus_cxx.Wire.Reader
use dbus_cxx.Wire.Reader.{Outcome, ok, Demarshaling, then_on}
use dbus_cxx.Wire.RoundTrip.{over}
use dbus_cxx.Wire.Numbers.{writer}
use dbus_cxx.Wire.Variant.{Value, value_signature, variant_of, marshal_value}
use dbus_cxx.Wire.Placed.{length-kept}
use dbus_cxx.Wire.Variants.{length-value_signature}

-- An entry takes more than the four bytes by which the loop's bound falls short.
pub length-entry_bytes :
    (n : ℕ) (k : MessageHeaderFields) (v : Value) → 5 ≤ length (entry_bytes n k v)
length-entry_bytes n k v =
    let kept : List ℕ = (marshal_value v (writer [] big)).bytes in
    omega (
      arith,
      length-append (replicate (padding 8 n) 0) (header_field_to_int k ∷ variant_bytes v),
      length-append (value_signature v) (0 ∷ kept),
      length-value_signature v,
      length-kept v,
    )

demarshal_headers_go :
    (fuel bound : ℕ) (fds : List ℕ) (headers : Headers) (r : Demarshaling)
    → ltb r.pos bound ≡ true
    → demarshal_headers (suc fuel) fds bound headers r
      ≡ then_on (demarshal_header (suc fuel) fds headers r) (demarshal_headers fuel fds bound)
unfolding demarshal_headers Reader.current_offset
demarshal_headers_go fuel bound fds headers r e = rw (e, demarshal_headers)

demarshal_headers_stop :
    (fuel bound : ℕ) (fds : List ℕ) (headers : Headers) (r : Demarshaling)
    → ltb r.pos bound ≡ false
    → demarshal_headers (suc fuel) fds bound headers r ≡ ok (headers, r)
unfolding demarshal_headers Reader.current_offset
demarshal_headers_stop fuel bound fds headers r e = rw (e, demarshal_headers)

Below-mono : (m : HeaderMap) (a b : ℕ) → Below m a → a ≤ b → Below m b
Below-mono [] a b h le = tt
Below-mono ((j, w) ∷ m) a b (h, hs) le = (omega arith, Below-mono m a b hs le)

-- The bytes behind an entry as what follows it.
regroup :
    (bs entry tail rest : List ℕ) (p : ℕ)
    → over (writer (bs ++ (entry ++ tail)) big) rest p
      ≡ over (writer (bs ++ entry) big) (tail ++ rest) p
regroup bs entry tail rest p = simp append_assoc

-- One round of the loop over an entry that stands at `bs`.
round_lem :
    (k : MessageHeaderFields) (v : Value) (bs tail rest fds : List ℕ) (fuel bound low : ℕ)
    (m : HeaderMap) (real_fds : List ℕ)
    → low < header_field_to_int k
    → Below m (suc low)
    → IsHeaderValue v
    → CountsFds (length fds) k v
    → length fds < 2 ^ 31
    → length bs < bound
    → length (bs ++ entry_bytes (length bs) k v) + length (tail ++ rest) < 2 ^ 32
    → demarshal_headers
        (suc fuel)
        fds
        bound
        (m, real_fds)
        (over (writer (bs ++ (entry_bytes (length bs) k v ++ tail)) big) rest (length bs))
      ≡ demarshal_headers fuel fds bound
          (m ++ ((k, variant_of v) ∷ []), real_fds ++ own_fds fds k)
          (over
            (writer ((bs ++ entry_bytes (length bs) k v) ++ tail) big)
            rest
            (length (bs ++ entry_bytes (length bs) k v)))
round_lem k v bs tail rest fds fuel bound low m real_fds here up good counts few lt small =
    let below : Below m (header_field_to_int k) = Below-mono m (suc low) _ up here in
    rw
      (
        regroup bs (entry_bytes (length bs) k v) tail rest (length bs),
        demarshal_headers_go fuel bound fds (m, real_fds)
            (over (writer (bs ++ entry_bytes (length bs) k v) big) (tail ++ rest) (length bs))
            (lt→ltb (length bs) bound lt),
        demarshal_header-marshal_header k v bs (tail ++ rest) fds fuel (m, real_fds) good small,
        store_lem k v fds m real_fds
            (over (writer (bs ++ entry_bytes (length bs) k v) big) (tail ++ rest)
              (length (bs ++ entry_bytes (length bs) k v)))
            (omega arith) below counts few,
      )
      (simp append_assoc)

-- The loop of create_from_data over an array of header entries behind any bytes returns the map
-- of the fields and the descriptors that they count, and stops behind the last entry, although
-- its bound is four bytes short of it. The fields ascend and are readable, the buffer is
-- smaller than 2 ^ 32 bytes, there are fewer than 2 ^ 31 descriptors and there is a round of
-- fuel for each field and one more.
pub demarshal_headers-marshal_headers :
    (fs : Fields) (bs rest fds : List ℕ) (fuel bound low : ℕ) (m : HeaderMap) (real_fds : List ℕ)
    → Ascends low fs
    → Below m (suc low)
    → Readable (length fds) fs
    → length fds < 2 ^ 31
    → length bs + length (entries_bytes (length bs) fs) ≡ bound + 4
    → length bs + length (entries_bytes (length bs) fs) + length rest < 2 ^ 32
    → length fs < fuel
    → demarshal_headers fuel fds bound
        (m, real_fds)
        (over (writer (bs ++ entries_bytes (length bs) fs) big) rest (length bs))
      ≡ ok (
        (m ++ map_of fs, real_fds ++ fds_of fds fs),
        over
            (writer (bs ++ entries_bytes (length bs) fs) big)
            rest
            (length (bs ++ entries_bytes (length bs) fs)),
      )
demarshal_headers-marshal_headers [] bs rest fds (suc fuel) bound low m real_fds up below good few
      ends small f =
    let at_end : bs ++ [] ≡ bs = append-nil bs in
    rw (
      demarshal_headers_stop fuel bound fds (m, real_fds)
          (over (writer (bs ++ []) big) rest (length bs)) (ground arith),
      at_end,
      append-nil m,
      append-nil real_fds,
    )
demarshal_headers-marshal_headers ((k, v) ∷ fs) bs rest fds (suc fuel) bound low m real_fds
      (here, up) below (good, counts, goods) few ends small f =
    let entry : List ℕ = entry_bytes (length bs) k v in
    let front : List ℕ = bs ++ entry in
    let tail : List ℕ = entries_bytes (length bs + length entry) fs in
    let one : length front ≡ length bs + length entry = length-append bs entry in
    let five : 5 ≤ length entry = length-entry_bytes (length bs) k v in
    let both : length (entry ++ tail) ≡ length entry + length tail = length-append entry tail in
    let behind : demarshal_headers fuel fds bound
          (m ++ ((k, variant_of v) ∷ []), real_fds ++ own_fds fds k)
          (over (writer (front ++ entries_bytes (length front) fs) big) rest (length front))
        ≡ ok (
          (
            (m ++ ((k, variant_of v) ∷ [])) ++ map_of fs,
            (real_fds ++ own_fds fds k) ++ fds_of fds fs,
          ),
          over (writer (front ++ entries_bytes (length front) fs) big) rest
              (length (front ++ entries_bytes (length front) fs)),
        ) =
      demarshal_headers-marshal_headers fs front rest fds fuel bound (header_field_to_int k)
        (m ++ ((k, variant_of v) ∷ [])) (real_fds ++ own_fds fds k) up
        (Below-append m k (variant_of v) (suc (header_field_to_int k))
          (Below-mono m (suc low) _ below here) (omega arith))
        goods few (rw one (omega (arith, both))) (rw one (omega (arith, both))) (omega arith) in
    round_lem k v bs tail rest fds fuel bound low m real_fds here below good counts few
      (omega (arith, both)) (omega (arith, both, length-append tail rest))
    ∙ rw (← one) (behind ∙ simp append_assoc)
demarshal_headers-marshal_headers fs bs rest fds zero bound low m real_fds up below good few ends
      small f =
    absurd (omega arith)
