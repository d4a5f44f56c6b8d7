-- ===== src/Sync/Codec.antt =====
-- A sync request is read back from its bytes (src/sync/request.rs, src/sync/type_flags.rs).
use bitmancer.Prelude.{
  ℕ, zero, suc, ◌+◌, ◌*◌, ◌/◌, ◌%◌, ◌^◌, ◌≤◌, ◌<◌, ◌≡◌, refl, ◌∙◌, sym, ap, subst, Bool, true,
  false, not, ◌&&◌, Option, none, some, List, [], ◌∷◌, ◌++◌, ltb, leb, ◌==◌, length, arith,
  append_assoc, append-nil, length-append, take-append_length, drop-append_length,
}
use bitmancer.Prelude.Bytes.{
  to_be_bytes, from_be_bytes, length-to_be_bytes, from_be_bytes-to_be_bytes,
}
use bitmancer.Sync.TypeFlags.{to_bytes}
use bitmancer.Sync.Request.{
  RequestSync, put_field, put_types, put_since, put_filter, encode_request, Fields, no_fields,
  read_field, read_fields, complete_request, decode_with_cap, decode_request,
}
use bitmancer.Sync.TypeSets.{IsTypes, sent_types}

module _ (is_utf8 : List ℕ → Bool) (cap : ℕ) where
  -- Reading goes past a field, whatever follows.
  past_field :
      (fuel tag : ℕ) (value rest : List ℕ) (f g : Fields)
      → length value < 2 ^ 16
      → length (put_field tag value ++ rest) ≤ fuel
      → read_field is_utf8 cap tag value f ≡ some g
      → (less : ℕ) × (read_fields is_utf8 fuel cap (put_field tag value ++ rest) f
          ≡ read_fields is_utf8 less cap rest g)
        × (length rest ≤ less)
  unfolding put_field to_be_bytes read_fields
  past_field zero tag value rest f g lt le e = absurd (omega (arith, le))
  past_field (suc fuel) tag value rest f g lt le e =
      let size : (length value % 2 ^ 16 / 256 % 256) * 256 + length value % 2 ^ 16 % 256
          ≡ length value =
        omega (arith, lt) in
      let within : ltb (length (value ++ rest)) (length value) ≡ false =
        ground (arith, length-append value rest) in
      (
        fuel,
        rw (read_fields, size)
            (rw within
              (rw (take-append_length value rest, drop-append_length value rest) (rw e refl))),
        omega (arith, le, length-append value rest),
      )

  abbrev fields :
      Option ℕ → Option ℕ → Option (List ℕ) → Option ℕ → Option ℕ → Option (List ℕ) → Fields
  fields p m payload types since filter = record {
    p = p;
    m = m;
    payload = payload;
    types = types;
    since_timestamp = since;
    fragment_id_filter = filter;
  }

  -- Reading goes past some bytes, from these fields to those, whatever follows.
  abbrev Reads : List ℕ → Fields → Fields → Type 0
  Reads bytes f g =
      (fuel : ℕ) (rest : List ℕ)
      → length (bytes ++ rest) ≤ fuel
      → (less : ℕ) × (read_fields is_utf8 fuel cap (bytes ++ rest) f
          ≡ read_fields is_utf8 less cap rest g)
        × (length rest ≤ less)

  Reads-nothing : (f : Fields) → Reads [] f f
  Reads-nothing f fuel rest le = (fuel, refl, le)

  Reads-field :
      (tag : ℕ) (value : List ℕ) (f g : Fields)
      → length value < 2 ^ 16
      → read_field is_utf8 cap tag value f ≡ some g
      → Reads (put_field tag value) f g
  Reads-field tag value f g lt e fuel rest le = past_field fuel tag value rest f g lt le e

  Reads-both :
      (xs ys : List ℕ) (f g h : Fields) → Reads xs f g → Reads ys g h → Reads (xs ++ ys) f h
  Reads-both xs ys f g h a b fuel rest le =
      let same : (xs ++ ys) ++ rest ≡ xs ++ (ys ++ rest) = append_assoc xs ys rest in
      let (less, e, l) = a fuel (ys ++ rest) (omega (arith, le, ap length same)) in
      let (least, d, k) = b less rest l in
      (least, ap (λ bytes. read_fields is_utf8 fuel cap bytes f) same ∙ e ∙ d, k)

  Reads-all :
      (bytes : List ℕ) (f g : Fields)
      → Reads bytes f g
      → read_fields is_utf8 (length bytes) cap bytes f ≡ some g
  unfolding read_fields
  Reads-all bytes f g a =
      let (less, e, l) = a (length bytes) [] (omega (arith, ap length (append-nil bytes))) in
      ap (λ xs. read_fields is_utf8 (length bytes) cap xs f) (sym (append-nil bytes))
      ∙ e
      ∙ at_end less g
    where
      at_end : (n : ℕ) (g : Fields) → read_fields is_utf8 n cap [] g ≡ some g
      at_end zero g = refl
      at_end (suc n) g = refl

  -- A request that can be sent.
  pub record IsRequest (r : RequestSync) : Type 0 where
    pub p_positive : 1 ≤ r.p
    pub p_small : r.p ≤ 32
    pub m_positive : 1 ≤ r.m
    pub m_small : r.m < 2 ^ 32
    pub filter_short : length r.bitstream ≤ cap
    pub types : (t : ℕ) → r.types ≡ some t → IsTypes t
    pub since : (t : ℕ) → r.since_timestamp ≡ some t → t < 2 ^ 64
    pub ids :
        (text : List ℕ)
        → r.fragment_id_filter ≡ some text
        → (length text ≤ cap) × (is_utf8 text ≡ true)

  put_types-sent :
      (t : ℕ) (bytes : List ℕ) → to_bytes t ≡ some bytes → put_types (some t) ≡ put_field 0x04 bytes
  unfolding put_types
  put_types-sent t bytes e = rw (put_types, e) refl

  Reads-types :
      (o : Option ℕ) (p m : Option ℕ) (payload : Option (List ℕ))
      → ((t : ℕ) → o ≡ some t → IsTypes t)
      → Reads (put_types o) (fields p m payload none none none) (fields p m payload o none none)
  unfolding put_types read_field
  Reads-types none p m payload h = Reads-nothing _
  Reads-types (some t) p m payload h =
      let (bytes, sent, short, back) = sent_types t (h t refl) in
      subst
        (λ xs. Reads xs (fields p m payload none none none) (fields p m payload (some t) none none))
        (sym (put_types-sent t bytes sent))
        (Reads-field 0x04 bytes _ _ (omega (arith, short)) (rw back refl))

  Reads-since :
      (o : Option ℕ) (p m : Option ℕ) (payload : Option (List ℕ)) (types : Option ℕ)
      → ((t : ℕ) → o ≡ some t → t < 2 ^ 64)
      → Reads (put_since o) (fields p m payload types none none) (fields p m payload types o none)
  unfolding put_since read_field
  Reads-since none p m payload types h = Reads-nothing _
  Reads-since (some t) p m payload types h =
      let back : from_be_bytes (to_be_bytes 8 t) ≡ t = from_be_bytes-to_be_bytes 8 t (h t refl) in
      let wide : (length (to_be_bytes 8 t) == 8) ≡ true =
        ap (λ n. n == 8) (length-to_be_bytes 8 t) in
      Reads-field 0x05 (to_be_bytes 8 t) _ _ (omega (arith, length-to_be_bytes 8 t))
        (rw wide (rw back refl))

  Reads-filter :
      (o : Option (List ℕ)) (p m : Option ℕ) (payload : Option (List ℕ)) (types since : Option ℕ)
      → cap < 2 ^ 16
      → ((text : List ℕ) → o ≡ some text → (length text ≤ cap) × (is_utf8 text ≡ true))
      → Reads
          (put_filter o)
          (fields p m payload types since none)
          (fields p m payload types since o)
  unfolding put_filter read_field
  Reads-filter none p m payload types since small h = Reads-nothing _
  Reads-filter (some text) p m payload types since small h =
      let (short, valid) = h text refl in
      let within : leb (length text) cap ≡ true = ground (arith, short) in
      Reads-field 0x06 text _ _ (omega (arith, short, small)) (rw within (rw valid refl))

  Reads-p :
      (p : ℕ)
      → p < 256
      → Reads (put_field 0x01 (p % 256 ∷ [])) no_fields (fields (some p) none none none none none)
  unfolding read_field from_be_bytes
  Reads-p p small =
      let byte : 0 * 256 + p % 256 ≡ p = omega (arith, small) in
      Reads-field 0x01 (p % 256 ∷ []) _ _ (omega arith) (rw byte refl)

  Reads-m :
      (p : Option ℕ) (m : ℕ)
      → m < 2 ^ 32
      → Reads
          (put_field 0x02 (to_be_bytes 4 m))
          (fields p none none none none none)
          (fields p (some m) none none none none)
  unfolding read_field
  Reads-m p m small =
      let back : from_be_bytes (to_be_bytes 4 m) ≡ m = from_be_bytes-to_be_bytes 4 m small in
      let wide : (length (to_be_bytes 4 m) == 4) ≡ true =
        ap (λ n. n == 4) (length-to_be_bytes 4 m) in
      Reads-field 0x02 (to_be_bytes 4 m) _ _ (omega (arith, length-to_be_bytes 4 m))
        (rw wide (rw back refl))

  Reads-payload :
      (p m : Option ℕ) (payload : List ℕ)
      → cap < 2 ^ 16
      → length payload ≤ cap
      → Reads
          (put_field 0x03 payload)
          (fields p m none none none none)
          (fields p m (some payload) none none none)
  unfolding read_field
  Reads-payload p m payload small short =
      let within : ltb cap (length payload) ≡ false = ground (arith, short) in
      Reads-field 0x03 payload _ _ (omega (arith, short, small)) (rw within refl)

  all_fields : RequestSync → Fields
  all_fields r =
      fields (some r.p) (some r.m) (some r.bitstream) r.types r.since_timestamp r.fragment_id_filter

  Reads-request :
      (r : RequestSync)
      → cap < 2 ^ 16
      → IsRequest r
      → Reads (encode_request r) no_fields (all_fields r)
  unfolding encode_request all_fields
  Reads-request r small h =
      let last = put_since r.since_timestamp ++ put_filter r.fragment_id_filter in
      let optional = put_types r.types ++ last in
      let filter_on = put_field 0x03 r.bitstream ++ optional in
      let reads_last =
        Reads-both (put_since r.since_timestamp) (put_filter r.fragment_id_filter) _ _ _
          (Reads-since r.since_timestamp (some r.p) (some r.m) (some r.bitstream) r.types h.since)
          (Reads-filter r.fragment_id_filter (some r.p) (some r.m) (some r.bitstream) r.types
            r.since_timestamp small h.ids) in
      let reads_optional =
        Reads-both (put_types r.types) last _ _ _
          (Reads-types r.types (some r.p) (some r.m) (some r.bitstream) h.types) reads_last in
      let reads_filter_on =
        Reads-both (put_field 0x03 r.bitstream) optional _ _ _
          (Reads-payload (some r.p) (some r.m) r.bitstream small h.filter_short) reads_optional in
      Reads-both (put_field 0x01 (r.p % 256 ∷ [])) (put_field 0x02 (to_be_bytes 4 r.m) ++ filter_on)
        _ _ _ (Reads-p r.p (omega (arith, h.p_small)))
        (Reads-both (put_field 0x02 (to_be_bytes 4 r.m)) filter_on _ _ _
          (Reads-m (some r.p) r.m h.m_small) reads_filter_on)

  complete-all_fields :
      (r : RequestSync) → IsRequest r → complete_request is_utf8 (all_fields r) ≡ some r
  unfolding complete_request all_fields
  complete-all_fields r h =
      let accepted : (leb 1 r.p && leb r.p 32 && not (r.m == 0)) ≡ true =
        ground (arith, h.p_positive, h.p_small, h.m_positive) in
      rw accepted refl

-- A request whose fields are in range and within the limits of 1,024 bytes is read back from its
-- bytes, whichever byte strings count as texts.
pub decode-encode_request :
    (is_utf8 : List ℕ → Bool) (r : RequestSync)
    → IsRequest is_utf8 1024 r
    → decode_request is_utf8 (encode_request r) ≡ some r
unfolding decode_request decode_with_cap
decode-encode_request is_utf8 r h =
    rw
      (Reads-all is_utf8 1024 (encode_request r) no_fields (all_fields is_utf8 1024 r)
        (Reads-request is_utf8 1024 r (omega arith) h))
      (complete-all_fields is_utf8 1024 r h)
