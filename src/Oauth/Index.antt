-- ===== src/Oauth/Index.antt =====
-- A bucket of hashes that point to series, and the series rows that hold the hashes.
use shoka.Prelude.{◌≡◌, ◌≢◌, ◌∙◌, sym, ap, none, some, [], inl, inr}
use shoka.Prelude.Assoc.{lookup, put, remove}
use shoka.Prelude.Lookup.{put_same, put_other, remove_other, found-put, found-remove, removed_none}
use shoka.Text.{Text}
use shoka.Text.Keys.{text_key}
use shoka.Oauth.{SeriesRecord, Bucket, Pointers}

-- Every pointer leads to the series that holds its key, and the hash of every series points to it.
pub record IsIndex (field : SeriesRecord → Text) (rows : Bucket SeriesRecord) (pointers : Pointers)
    : Type 0 where
  pub leads :
      (k sid : Text)
      → lookup k pointers ≡ some sid
      → (rec : SeriesRecord) × (lookup sid rows ≡ some (some rec)) × (field rec ≡ k)
  pub points :
      (sid : Text) (rec : SeriesRecord)
      → lookup sid rows ≡ some (some rec)
      → lookup (field rec) pointers ≡ some sid
  pub no_empty : lookup [] pointers ≡ none

module _ (field : SeriesRecord → Text) (rows : Bucket SeriesRecord) (pointers : Pointers)
    (h : IsIndex field rows pointers) where
  -- Two series never share a hash.
  pub one_owner :
      (sid to : Text) (rec other : SeriesRecord)
      → lookup sid rows ≡ some (some rec)
      → lookup to rows ≡ some (some other)
      → field rec ≡ field other
      → sid ≡ to
  one_owner sid to rec other a b e =
      let first = h.points sid rec a in
      let second = h.points to other b in cc (first, second, ap (λ k. lookup k pointers) e)

  -- A series that is new, under a hash that is new.
  pub put-IsIndex :
      (sid : Text) (new : SeriesRecord)
      → lookup sid rows ≡ none
      → lookup (field new) pointers ≡ none
      → field new ≢ []
      → IsIndex field (put sid (some new) rows) (put (field new) sid pointers)
  put-IsIndex sid new absent fresh filled = record {
    leads = λ k to e. elim (found-put (field new) k sid to pointers e) [
      | inl (key, is) ↦ (
        new,
        ap (λ x. lookup x (put sid (some new) rows)) (sym is) ∙ put_same sid (some new) rows,
        key,
      )
      | inr (other, old) ↦
          let (rec, row, key) = h.leads k to old in
          (
            rec,
            put_other sid to (some new) rows
                  (λ s. let gone = ap (λ x. lookup x rows) s in cc (gone, row, absent))
                ∙ row,
            key,
          )
    ];
    points = λ to rec e. elim (found-put sid to (some new) (some rec) rows e) [
      | inl (is, same) ↦
          let rec_is : new ≡ rec = cc same in
          rw (← rec_is) (rw (← is) (put_same (field new) sid pointers))
      | inr (other, row) ↦
          let there = h.points to rec row in
          put_other (field new) (field rec) sid pointers
            (λ s. let gone = ap (λ x. lookup x pointers) s in cc (gone, there, fresh))
          ∙ there
    ];
    no_empty = put_other (field new) [] sid pointers filled ∙ h.no_empty;
  }

  -- A series gets a new hash, and the old pointer goes.
  pub replace-IsIndex :
      (sid : Text) (old new : SeriesRecord)
      → lookup sid rows ≡ some (some old)
      → lookup (field new) pointers ≡ none
      → field new ≢ []
      → IsIndex field (put sid (some new) rows) (put (field new) sid (remove (field old) pointers))
  replace-IsIndex sid old new was fresh filled = record {
    leads = λ k to e. elim (found-put (field new) k sid to (remove (field old) pointers) e) [
      | inl (key, is) ↦ (
        new,
        ap (λ x. lookup x (put sid (some new) rows)) (sym is) ∙ put_same sid (some new) rows,
        key,
      )
      | inr (other, left) ↦
          let (differ, there) = found-remove (field old) k to pointers left in
          let (rec, row, key) = h.leads k to there in
          (
            rec,
            put_other sid to (some new) rows (λ s. differ (
                  let same = ap (λ x. lookup x rows) s in
                  let is : some (some old) ≡ some (some rec) = sym was ∙ same ∙ row in
                  let rec_is : old ≡ rec = cc is in ap field rec_is ∙ key))
                ∙ row,
            key,
          )
    ];
    points = λ to rec e. elim (found-put sid to (some new) (some rec) rows e) [
      | inl (is, same) ↦
          let rec_is : new ≡ rec = cc same in
          rw (← rec_is) (rw (← is) (put_same (field new) sid (remove (field old) pointers)))
      | inr (other, row) ↦
          let there = h.points to rec row in
          put_other (field new) (field rec) sid (remove (field old) pointers)
            (λ s. let gone = ap (λ x. lookup x pointers) s in cc (gone, there, fresh))
          ∙ remove_other (field old) (field rec) pointers
              (λ s. other (one_owner sid to old rec was row s))
          ∙ there
    ];
    no_empty =
        put_other (field new) [] sid (remove (field old) pointers) filled
        ∙ removed_none (field old) [] pointers h.no_empty;
  }

  -- A series goes with its pointer.
  pub remove-IsIndex :
      (sid : Text) (old : SeriesRecord)
      → lookup sid rows ≡ some (some old)
      → IsIndex field (remove sid rows) (remove (field old) pointers)
  remove-IsIndex sid old was = record {
    leads = λ k to e.
        let (differ, there) = found-remove (field old) k to pointers e in
        let (rec, row, key) = h.leads k to there in
        (
          rec,
          remove_other sid to rows (λ s. differ (
                let same = ap (λ x. lookup x rows) s in
                let is : some (some old) ≡ some (some rec) = sym was ∙ same ∙ row in
                let rec_is : old ≡ rec = cc is in ap field rec_is ∙ key))
              ∙ row,
          key,
        );
    points = λ to rec e.
        let (other, row) = found-remove sid to (some rec) rows e in
        remove_other (field old) (field rec) pointers
          (λ s. other (one_owner sid to old rec was row s))
        ∙ h.points to rec row;
    no_empty = removed_none (field old) [] pointers h.no_empty;
  }

  -- A row that does not decode goes; no pointer led to it.
  pub torn-IsIndex :
      (sid : Text) → lookup sid rows ≡ some none → IsIndex field (remove sid rows) pointers
  torn-IsIndex sid torn = record {
    leads = λ k to e.
        let (rec, row, key) = h.leads k to e in
        (
          rec,
          remove_other sid to rows
                (λ s. let same = ap (λ x. lookup x rows) s in cc (same, torn, row))
              ∙ row,
          key,
        );
    points = λ to rec e. h.points to rec (found-remove sid to (some rec) rows e).1;
    no_empty = h.no_empty;
  }
