-- ===== src/Wal/Integrity.antt =====
-- What readEntryFile accepts.
use shoka.Prelude.{
  ℕ, ◌+◌, ◌<◌, ◌≡◌, refl, sym, Bool, true, false, List, [], ◌∷◌, map, ◌==◌, All, ==_iff,
}
use shoka.Text.{text_eq, trim_space}
use shoka.Text.Laws.{text_eq_iff, text_eq_refl}
use shoka.PartialEdit.{Bytes}
use shoka.Wal.Seq.{u64_mod, parse_uint, parse_uint-seq_hex, trim_space-seq_hex}
use shoka.Wal.Wire.{
  AuxFile, Entry, WireAux, Codec, ReadError, Result, ok, err, ◌>>=◌, guard, value_or, len64,
  to_wire_aux, to_wire, read_aux, read_auxes, read_entry, fill_aux, fill, parse, bad_seq,
  seq_mismatch, bad_base64, size_mismatch, hash_mismatch, bad_ts, bad_aux_base64, aux_size_mismatch,
  aux_hash_mismatch,
}

-- A chain that succeeds has a first step that succeeded, and so has the rest.
both_ok {ℓ κ} :
    {T : Type ℓ} {U : Type κ} (step : Result T) (next : T → Result U) {u : U}
    → (step >>= next) ≡ ok u
    → (t : T) × (step ≡ ok t) × (next t ≡ ok u)
both_ok (err cause) next e = cc
both_ok (ok t) next e = (t, refl, e)

guard-eq-ok : (b : Bool) (e : ReadError) → guard b e ≡ ok tt → b ≡ true
guard-eq-ok true e h = refl
guard-eq-ok false e h = cc

ok-injective {ℓ} : {A : Type ℓ} {a b : A} → ok a ≡ ok b → a ≡ b
ok-injective h = cc

module _ (c : Codec) where
  -- The size and the version are those of the content.
  pub record IsIntactAux (a : AuxFile) : Type 0 where
    pub size : a.size ≡ len64 a.content
    pub version : a.version ≡ c.sha256_hex a.content

  pub record IsIntact (e : Entry) : Type 0 where
    pub size : e.size ≡ len64 e.content
    pub version : e.version ≡ c.sha256_hex e.content
    pub aux : All IsIntactAux e.aux

  fill_aux-IsIntactAux : (l : List AuxFile) → All IsIntactAux (map (fill_aux c) l)
  unfolding fill_aux
  fill_aux-IsIntactAux [] = tt
  fill_aux-IsIntactAux (a ∷ l) = (record { size = refl; version = refl }, fill_aux-IsIntactAux l)

  pub fill-IsIntact : (seq now : ℕ) (e : Entry) → IsIntact (fill c seq now e)
  unfolding fill
  fill-IsIntact seq now e = record { size = refl; version = refl; aux = fill_aux-IsIntactAux e.aux }

  read_aux-to_wire_aux :
      (i : ℕ) (a : AuxFile) → IsIntactAux a → read_aux c i (to_wire_aux c a) ≡ ok a
  unfolding read_aux to_wire_aux
  read_aux-to_wire_aux i a h = rw (c.decode-encode a.content) (
      rw (← h.size)
        (rw (← h.version) (rw ((==_iff a.size a.size).1 refl) (rw (text_eq_refl a.version) refl))))

  read_auxes-to_wire :
      (i : ℕ) (l : List AuxFile) → All IsIntactAux l → read_auxes c i (map (to_wire_aux c) l) ≡ ok l
  unfolding read_auxes
  read_auxes-to_wire i [] h = refl
  read_auxes-to_wire i (a ∷ l) h =
      rw (read_aux-to_wire_aux i a h.0) (rw (read_auxes-to_wire (i + 1) l h.1) refl)

  -- What Append writes is read back as the entry that it wrote: sequence number, time, names,
  -- content, aux payloads, identity and all.
  pub read_entry-to_wire :
      (e : Entry)
      → e.seq < u64_mod
      → IsIntact e
      → read_entry c (c.marshal (to_wire c e)) e.seq ≡ ok e
  unfolding read_entry to_wire
  read_entry-to_wire e b h = rw (c.unmarshal-marshal _) (
      rw (trim_space-seq_hex e.seq) (
        rw (parse_uint-seq_hex e.seq b) (
          rw ((==_iff e.seq e.seq).1 refl) (
            rw (c.decode-encode e.content) (
              rw (← h.size) (
                rw (← h.version) (
                  rw ((==_iff e.size e.size).1 refl) (
                    rw (text_eq_refl e.version) (
                      rw (c.parse-format e.ts) (rw (read_auxes-to_wire 0 e.aux h.aux) refl))))))))))

  read_aux_sound : (i : ℕ) (wa : WireAux) (a : AuxFile) → read_aux c i wa ≡ ok a → IsIntactAux a
  unfolding read_aux
  read_aux_sound i wa a h =
      let (ac, _, h1) = both_ok (value_or (c.b64_decode wa.content_b64) (bad_aux_base64 i)) _ h in
      let (_, sized, h2) = both_ok (guard (len64 ac == wa.size) (aux_size_mismatch i)) _ h1 in
      let (_, hashed, h3) =
        both_ok (guard (text_eq (c.sha256_hex ac) wa.version) (aux_hash_mismatch i)) _ h2 in
      let same_size : len64 ac ≡ wa.size = (==_iff _ _).0 (guard-eq-ok _ _ sized) in
      let same_hash : c.sha256_hex ac ≡ wa.version = (text_eq_iff _ _).0 (guard-eq-ok _ _ hashed) in
      rw (← ok-injective h3) (record { size = sym same_size; version = sym same_hash })

  read_auxes_sound :
      (i : ℕ) (l : List WireAux) (out : List AuxFile)
      → read_auxes c i l ≡ ok out
      → All IsIntactAux out
  unfolding read_auxes
  read_auxes_sound i [] out h = rw (← ok-injective h) tt
  read_auxes_sound i (wa ∷ l) out h =
      let (a, first, h1) = both_ok (read_aux c i wa) _ h in
      let (rest, others, h2) = both_ok (read_auxes c (i + 1) l) _ h1 in
      rw (← ok-injective h2) (read_aux_sound i wa a first, read_auxes_sound (i + 1) l rest others)

  -- A read accepts an entry only under the sequence number of its file name, and only with the size
  -- and the hash of its content and of every aux payload.
  pub read_entry_sound :
      (file : Bytes) (want_seq : ℕ) (e : Entry)
      → read_entry c file want_seq ≡ ok e
      → (e.seq ≡ want_seq) × IsIntact e
  unfolding read_entry
  read_entry_sound file want_seq e h =
      let (w, _, h1) = both_ok (value_or (c.unmarshal file) parse) _ h in
      let (seq, _, h2) = both_ok (value_or (parse_uint (trim_space w.seq)) bad_seq) _ h1 in
      let (_, named, h3) = both_ok (guard (seq == want_seq) seq_mismatch) _ h2 in
      let (content, _, h4) = both_ok (value_or (c.b64_decode w.content_b64) bad_base64) _ h3 in
      let (_, sized, h5) = both_ok (guard (len64 content == w.size) size_mismatch) _ h4 in
      let (_, hashed, h6) =
        both_ok (guard (text_eq (c.sha256_hex content) w.version) hash_mismatch) _ h5 in
      let (ts, _, h7) = both_ok (value_or (c.parse_time w.ts) bad_ts) _ h6 in
      let (aux, auxes, h8) = both_ok (read_auxes c 0 w.aux) _ h7 in
      let same_size : len64 content ≡ w.size = (==_iff _ _).0 (guard-eq-ok _ _ sized) in
      let same_hash : c.sha256_hex content ≡ w.version =
        (text_eq_iff _ _).0 (guard-eq-ok _ _ hashed) in
      rw (← ok-injective h8) (
        (==_iff seq want_seq).0 (guard-eq-ok _ _ named),
        record {
          size = sym same_size;
          version = sym same_hash;
          aux = read_auxes_sound 0 w.aux aux auxes;
        },
      )
