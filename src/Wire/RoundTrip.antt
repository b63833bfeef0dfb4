-- ===== src/Wire/RoundTrip.antt =====
-- Words of two, four and eight bytes in either order (dbus-cxx/marshaling.cpp and
-- demarshaling.cpp).
use dbus_cxx.Common.{
  ℕ, ◌+◌, ◌<◌, ◌^◌, ◌≡◌, refl, sym, ◌∙◌, ap, List, [], ◌∷◌, ◌++◌, length, length-append,
  length-replicate, replicate, append_assoc, arith,
}
use dbus_cxx.Wire.Words.{
  short_bytes, int_bytes, long_bytes, byte0, byte1, byte2, byte3, byte4, byte5, byte6, byte7,
}
use dbus_cxx.Wire.Padding.{padding, writer_align}
use dbus_cxx.Wire.Scan.{
  behind, short_big-behind, short_little-behind, int_big-behind, int_little-behind, long_big-behind,
  long_little-behind, two, four, eight,
}
use dbus_cxx.Wire.Writer
use dbus_cxx.Wire.Writer.{Marshaling}
use dbus_cxx.Wire.Reader
use dbus_cxx.Wire.Reader.{Demarshaling, D, ok}

-- A reader at offset `p` of what `m` has written, with `rest` behind it.
abbrev pub over : Marshaling → List ℕ → ℕ → Demarshaling
over m rest p = record { bytes = m.bytes ++ rest; pos = p; endian = m.endian }

-- What `m` has written, padded to a multiple of `a`.
abbrev pub padded : ℕ → Marshaling → List ℕ
padded a m = m.bytes ++ replicate (padding a (length m.bytes)) 0

pub length-padded :
    (a : ℕ) (m : Marshaling) → length (padded a m) ≡ length m.bytes + padding a (length m.bytes)
length-padded a m = omega (
  arith,
  length-append m.bytes (replicate (padding a (length m.bytes)) 0),
  length-replicate {A = ℕ} (padding a (length m.bytes)) 0,
)

-- A read of the word that `w` has appended to the padded `m`.
word_read :
    (d : D ℕ) (n v : ℕ) (word rest : List ℕ) (m w : Marshaling)
    → w ≡ record m { bytes = padded n m ++ word }
    → length word ≡ n
    → d (record { bytes = padded n m ++ (word ++ rest); pos = length m.bytes; endian = m.endian })
      ≡ ok (v, behind (padded n m) m.endian (word ++ rest) n)
    → d (over w rest (length m.bytes)) ≡ ok (v, over w rest (length w.bytes))
word_read d n v word rest m w e k h =
    rw (e, append_assoc (padded n m) word rest, length-append (padded n m) word, k) h

pub marshal_short_big-bytes :
    (v : ℕ) (m : Marshaling)
    → Writer.marshal_short_big v m ≡ record m { bytes = padded 2 m ++ (byte1 v ∷ byte0 v ∷ []) }
unfolding Writer.marshal_short_big Writer.push_all
marshal_short_big-bytes v m = rw (writer_align 2 m two)

pub marshal_short_big_read :
    (v : ℕ) (m : Marshaling) (rest : List ℕ)
    → v < 2 ^ 16
    → length (Writer.marshal_short_big v m).bytes + length rest < 2 ^ 32
    → Reader.demarshal_short_big (over (Writer.marshal_short_big v m) rest (length m.bytes))
      ≡ ok (
        v,
        over (Writer.marshal_short_big v m) rest (length (Writer.marshal_short_big v m).bytes),
      )
marshal_short_big_read v m rest h small =
    let word : List ℕ = byte1 v ∷ byte0 v ∷ [] in
    let fits : length (padded 2 m) + length rest + 2 < 2 ^ 32 =
      omega (arith, rw (marshal_short_big-bytes v m, length-append (padded 2 m) word) at small) in
    word_read Reader.demarshal_short_big 2 v word rest m _ (marshal_short_big-bytes v m) refl (
      short_big-behind (padded 2 m) m.endian (length m.bytes) rest (byte1 v) (byte0 v)
        (sym (length-padded 2 m)) fits
      ∙ ap (λ (x : ℕ). ok (x, behind (padded 2 m) m.endian (word ++ rest) 2)) (short_bytes v h))

pub marshal_short_little-bytes :
    (v : ℕ) (m : Marshaling)
    → Writer.marshal_short_little v m ≡ record m { bytes = padded 2 m ++ (byte0 v ∷ byte1 v ∷ []) }
unfolding Writer.marshal_short_little Writer.push_all
marshal_short_little-bytes v m = rw (writer_align 2 m two)

pub marshal_short_little_read :
    (v : ℕ) (m : Marshaling) (rest : List ℕ)
    → v < 2 ^ 16
    → length (Writer.marshal_short_little v m).bytes + length rest < 2 ^ 32
    → Reader.demarshal_short_little (over (Writer.marshal_short_little v m) rest (length m.bytes))
      ≡ ok (
        v,
        over
            (Writer.marshal_short_little v m)
            rest
            (length (Writer.marshal_short_little v m).bytes),
      )
marshal_short_little_read v m rest h small =
    let word : List ℕ = byte0 v ∷ byte1 v ∷ [] in
    let fits : length (padded 2 m) + length rest + 2 < 2 ^ 32 =
      omega
        (arith, rw (marshal_short_little-bytes v m, length-append (padded 2 m) word) at small) in
    word_read Reader.demarshal_short_little 2 v word rest m _ (marshal_short_little-bytes v m) refl
      (short_little-behind (padded 2 m) m.endian (length m.bytes) rest (byte0 v) (byte1 v)
          (sym (length-padded 2 m)) fits
        ∙ ap (λ (x : ℕ). ok (x, behind (padded 2 m) m.endian (word ++ rest) 2)) (short_bytes v h))

pub marshal_int_big-bytes :
    (v : ℕ) (m : Marshaling)
    → Writer.marshal_int_big v m
      ≡ record m { bytes = padded 4 m ++ (byte3 v ∷ byte2 v ∷ byte1 v ∷ byte0 v ∷ []) }
unfolding Writer.marshal_int_big Writer.push_all
marshal_int_big-bytes v m = rw (writer_align 4 m four)

pub marshal_int_big_read :
    (v : ℕ) (m : Marshaling) (rest : List ℕ)
    → v < 2 ^ 32
    → length (Writer.marshal_int_big v m).bytes + length rest < 2 ^ 32
    → Reader.demarshal_int_big (over (Writer.marshal_int_big v m) rest (length m.bytes))
      ≡ ok (v, over (Writer.marshal_int_big v m) rest (length (Writer.marshal_int_big v m).bytes))
marshal_int_big_read v m rest h small =
    let word : List ℕ = byte3 v ∷ byte2 v ∷ byte1 v ∷ byte0 v ∷ [] in
    let fits : length (padded 4 m) + length rest + 4 < 2 ^ 32 =
      omega (arith, rw (marshal_int_big-bytes v m, length-append (padded 4 m) word) at small) in
    word_read Reader.demarshal_int_big 4 v word rest m _ (marshal_int_big-bytes v m) refl (
      int_big-behind (padded 4 m) m.endian (length m.bytes) rest (byte3 v) (byte2 v) (byte1 v)
        (byte0 v) (sym (length-padded 4 m)) fits
      ∙ ap (λ (x : ℕ). ok (x, behind (padded 4 m) m.endian (word ++ rest) 4)) (int_bytes v h))

pub marshal_int_little-bytes :
    (v : ℕ) (m : Marshaling)
    → Writer.marshal_int_little v m
      ≡ record m { bytes = padded 4 m ++ (byte0 v ∷ byte1 v ∷ byte2 v ∷ byte3 v ∷ []) }
unfolding Writer.marshal_int_little Writer.push_all
marshal_int_little-bytes v m = rw (writer_align 4 m four)

pub marshal_int_little_read :
    (v : ℕ) (m : Marshaling) (rest : List ℕ)
    → v < 2 ^ 32
    → length (Writer.marshal_int_little v m).bytes + length rest < 2 ^ 32
    → Reader.demarshal_int_little (over (Writer.marshal_int_little v m) rest (length m.bytes))
      ≡ ok (
        v,
        over (Writer.marshal_int_little v m) rest (length (Writer.marshal_int_little v m).bytes),
      )
marshal_int_little_read v m rest h small =
    let word : List ℕ = byte0 v ∷ byte1 v ∷ byte2 v ∷ byte3 v ∷ [] in
    let fits : length (padded 4 m) + length rest + 4 < 2 ^ 32 =
      omega (arith, rw (marshal_int_little-bytes v m, length-append (padded 4 m) word) at small) in
    word_read Reader.demarshal_int_little 4 v word rest m _ (marshal_int_little-bytes v m) refl (
      int_little-behind (padded 4 m) m.endian (length m.bytes) rest (byte0 v) (byte1 v) (byte2 v)
        (byte3 v) (sym (length-padded 4 m)) fits
      ∙ ap (λ (x : ℕ). ok (x, behind (padded 4 m) m.endian (word ++ rest) 4)) (int_bytes v h))

pub marshal_long_big-bytes :
    (v : ℕ) (m : Marshaling)
    → Writer.marshal_long_big v m ≡ record m {
      bytes =
          padded 8 m
          ++ (byte7 v ∷ byte6 v ∷ byte5 v ∷ byte4 v ∷ byte3 v ∷ byte2 v ∷ byte1 v ∷ byte0 v ∷ []);
    }
unfolding Writer.marshal_long_big Writer.push_all
marshal_long_big-bytes v m = rw (writer_align 8 m eight)

pub marshal_long_big_read :
    (v : ℕ) (m : Marshaling) (rest : List ℕ)
    → v < 2 ^ 64
    → length (Writer.marshal_long_big v m).bytes + length rest < 2 ^ 32
    → Reader.demarshal_long_big (over (Writer.marshal_long_big v m) rest (length m.bytes))
      ≡ ok (v, over (Writer.marshal_long_big v m) rest (length (Writer.marshal_long_big v m).bytes))
marshal_long_big_read v m rest h small =
    let word : List ℕ =
      byte7 v ∷ byte6 v ∷ byte5 v ∷ byte4 v ∷ byte3 v ∷ byte2 v ∷ byte1 v ∷ byte0 v ∷ [] in
    let fits : length (padded 8 m) + length rest + 8 < 2 ^ 32 =
      omega (arith, rw (marshal_long_big-bytes v m, length-append (padded 8 m) word) at small) in
    word_read Reader.demarshal_long_big 8 v word rest m _ (marshal_long_big-bytes v m) refl (
      long_big-behind (padded 8 m) m.endian (length m.bytes) rest (byte7 v) (byte6 v) (byte5 v)
        (byte4 v) (byte3 v) (byte2 v) (byte1 v) (byte0 v) (sym (length-padded 8 m)) fits
      ∙ ap (λ (x : ℕ). ok (x, behind (padded 8 m) m.endian (word ++ rest) 8)) (long_bytes v h))

pub marshal_long_little-bytes :
    (v : ℕ) (m : Marshaling)
    → Writer.marshal_long_little v m ≡ record m {
      bytes =
          padded 8 m
          ++ (byte0 v ∷ byte1 v ∷ byte2 v ∷ byte3 v ∷ byte4 v ∷ byte5 v ∷ byte6 v ∷ byte7 v ∷ []);
    }
unfolding Writer.marshal_long_little Writer.push_all
marshal_long_little-bytes v m = rw (writer_align 8 m eight)

pub marshal_long_little_read :
    (v : ℕ) (m : Marshaling) (rest : List ℕ)
    → v < 2 ^ 64
    → length (Writer.marshal_long_little v m).bytes + length rest < 2 ^ 32
    → Reader.demarshal_long_little (over (Writer.marshal_long_little v m) rest (length m.bytes))
      ≡ ok (
        v,
        over (Writer.marshal_long_little v m) rest (length (Writer.marshal_long_little v m).bytes),
      )
marshal_long_little_read v m rest h small =
    let word : List ℕ =
      byte0 v ∷ byte1 v ∷ byte2 v ∷ byte3 v ∷ byte4 v ∷ byte5 v ∷ byte6 v ∷ byte7 v ∷ [] in
    let fits : length (padded 8 m) + length rest + 8 < 2 ^ 32 =
      omega (arith, rw (marshal_long_little-bytes v m, length-append (padded 8 m) word) at small) in
    word_read Reader.demarshal_long_little 8 v word rest m _ (marshal_long_little-bytes v m) refl (
      long_little-behind (padded 8 m) m.endian (length m.bytes) rest (byte0 v) (byte1 v) (byte2 v)
        (byte3 v) (byte4 v) (byte5 v) (byte6 v) (byte7 v) (sym (length-padded 8 m)) fits
      ∙ ap (λ (x : ℕ). ok (x, behind (padded 8 m) m.endian (word ++ rest) 8)) (long_bytes v h))
