-- ===== src/Index/Quarantine/Reads.antt =====
-- internal/index/content_quarantine.go: a record that is put, confirmed and released.
use scrap.Common.{ℕ, ◌≡◌, ◌≢◌, refl, sym, ap, ◌∙◌, arith, Bool, true, false, List, if◌then◌else◌}
use scrap.Common.Int.{ℤ, pos, ltb_ℤ, leb_ℤ, IsInt64}
use scrap.Common.Bytes.{slice}
use scrap.Common.Result.{Result, ok, err, either, >>=-eq-ok, step-eq-ok, ok-injective}
use scrap.Index.Pebble.{Pebble, PebbleError}
use scrap.Index.Quarantine.{
  QuarantineError, content_quarantine_not_found, invalid_content_quarantine, pebble_error, write,
  ContentQuarantine, validate_identity, validate_content_quarantine, key_bytes,
  content_quarantine_key, decode_content_quarantine_key, encode_content_quarantine, read_int64,
  version_for_decode, decode_confirmed_at, decode_content_quarantine, put_content_quarantine,
  get_content_quarantine, get_error, missing, confirm_content_quarantine,
  release_content_quarantine,
}
use scrap.Index.Quarantine.RoundTrip.{
  IsQuarantine, decode_content_quarantine_key-key_bytes, decode_content_quarantine-encode,
  key_bytes-injective, content_quarantine_key-valid,
}

-- The time of the first confirmation.
abbrev pub first_confirmed : ContentQuarantine → ℤ → ContentQuarantine
first_confirmed q at =
    if ltb_ℤ (pos 0) q.confirmed_at_us then q else record q { confirmed_at_us = at }

above_zero : (at : ℤ) → leb_ℤ at (pos 0) ≡ false → ltb_ℤ (pos 0) at ≡ true
above_zero at h = ground arith

module _ {D : Type 0} (p : Pebble D) where
  -- A change of one key changes no other record.
  get_content_quarantine-other :
      (d later : D) (tx_id doc_name tx_other doc_other : List ℕ)
      → validate_identity tx_id doc_name ≡ ok tt
      → ((key : List ℕ) → key_bytes tx_id doc_name ≢ key → p.get later key ≡ p.get d key)
      → ◌≢◌ {A = List ℕ × List ℕ} (tx_id, doc_name) (tx_other, doc_other)
      → get_content_quarantine p later tx_other doc_other
        ≡ get_content_quarantine p d tx_other doc_other
  unfolding get_content_quarantine content_quarantine_key
  get_content_quarantine-other d later tx_id doc_name tx_other doc_other valid kept differ =
      at (validate_identity tx_other doc_other) refl
    where
      at :
          (v : Result QuarantineError (Unit {0}))
          → validate_identity tx_other doc_other ≡ v
          → get_content_quarantine p later tx_other doc_other
            ≡ get_content_quarantine p d tx_other doc_other
      at (err e) is = rw is
      at (ok tt) is = rw (
        is,
        kept (key_bytes tx_other doc_other)
            (λ same. differ (key_bytes-injective tx_id doc_name tx_other doc_other valid is same)),
      )

  -- The records of other Documents are the same.
  abbrev pub KeepsRecords : List ℕ → List ℕ → D → D → Type 0
  KeepsRecords tx_id doc_name d later =
      (tx_other doc_other : List ℕ)
      → ◌≢◌ {A = List ℕ × List ℕ} (tx_id, doc_name) (tx_other, doc_other)
      → get_content_quarantine p later tx_other doc_other
        ≡ get_content_quarantine p d tx_other doc_other

  -- A put that succeeds has a valid record, which is read back.
  put_content_quarantine-reads :
      (d later : D) (q : ContentQuarantine)
      → IsQuarantine q
      → put_content_quarantine p d q ≡ (later, ok tt)
      → (get_content_quarantine p later q.transaction_id q.document_name ≡ ok q)
        × KeepsRecords q.transaction_id q.document_name d later
  unfolding put_content_quarantine get_content_quarantine content_quarantine_key
  put_content_quarantine-reads d later q hq h =
      let (key, is_key, h1) =
        step-eq-ok (content_quarantine_key q.transaction_id q.document_name) d (λ e. e) _ h in
      let (identity, same) = content_quarantine_key-valid q.transaction_id q.document_name is_key in
      let (a, valid, h2) = step-eq-ok (validate_content_quarantine q) d (λ e. e) _ h1 in
      let (next, stored, h3) =
        step-eq-ok (p.set d key (encode_content_quarantine q)) d pebble_error
          (λ next. (next, ok tt)) h2 in
      let set : p.set d (key_bytes q.transaction_id q.document_name) (encode_content_quarantine q)
          ≡ ok later =
        ap (λ k. p.set d k (encode_content_quarantine q)) same ∙ (stored ∙ ap (λ r. ok r.0) h3) in
      (
        rw (identity, p.get-set d _ _ set, decode_content_quarantine-encode q hq valid),
        λ tx_other doc_other.
            get_content_quarantine-other d later q.transaction_id q.document_name tx_other doc_other
              identity (λ other differ. p.get-set_other d _ _ other set differ),
      )

  -- What a read gives has the identity that was asked for.
  get_content_quarantine-identity :
      (d : D) (tx_id doc_name : List ℕ) (q : ContentQuarantine)
      → get_content_quarantine p d tx_id doc_name ≡ ok q
      → (q.transaction_id ≡ tx_id) × (q.document_name ≡ doc_name)
  unfolding get_content_quarantine decode_content_quarantine
  get_content_quarantine-identity d tx_id doc_name q h =
      let (key, is_key, h1) = >>=-eq-ok (content_quarantine_key tx_id doc_name) _ h in
      let (identity, same) = content_quarantine_key-valid tx_id doc_name is_key in
      let (val, h2) = found_of (p.get d key) (decode_content_quarantine key) h1 in
      let (parts, split, h3) = >>=-eq-ok (decode_content_quarantine_key key) _ h2 in
      let (version, h4, h5) = >>=-eq-ok (version_for_decode val) _ h3 in
      let (detected, h6, h7) = >>=-eq-ok (read_int64 (slice 9 8 val)) _ h5 in
      let (confirmed, h8, h9) = >>=-eq-ok (decode_confirmed_at version val) _ h7 in
      let (a, valid, last) = >>=-eq-ok (validate_content_quarantine _) _ h9 in
      let asked : parts ≡ (tx_id, doc_name) = ok-injective (
        sym split
        ∙ (ap decode_content_quarantine_key (sym same)
            ∙ decode_content_quarantine_key-key_bytes tx_id doc_name identity)) in
      (
        sym (ap (λ r. r.transaction_id) (ok-injective last)) ∙ ap (λ r. r.0) asked,
        sym (ap (λ r. r.document_name) (ok-injective last)) ∙ ap (λ r. r.1) asked,
      )
    where
      found_of :
          (r : Result PebbleError (List ℕ))
          (good : List ℕ → Result QuarantineError ContentQuarantine)
          → either r (λ e. err (get_error e)) good ≡ ok q
          → (val : List ℕ) × (good val ≡ ok q)
      found_of (ok val) good h = (val, h)
      found_of (err e) good h = cc

  confirm_content_quarantine-done :
      (d : D) (tx_id doc_name : List ℕ) (at : ℤ) (q : ContentQuarantine)
      → leb_ℤ at (pos 0) ≡ false
      → get_content_quarantine p d tx_id doc_name ≡ ok q
      → ltb_ℤ (pos 0) q.confirmed_at_us ≡ true
      → confirm_content_quarantine p d tx_id doc_name at ≡ (d, ok tt)
  unfolding confirm_content_quarantine
  confirm_content_quarantine-done d tx_id doc_name at q positive read done =
      rw (positive, read, done)

  -- When the confirmation of a quarantine that is there succeeds, the quarantine is read with the
  -- time of its first confirmation, the records of other Documents are as before, and a
  -- confirmation that follows, at any positive time, succeeds and changes nothing. The record that
  -- was there has fields of their types.
  pub confirm_content_quarantine-replayed :
      (d later : D) (tx_id doc_name : List ℕ) (at again : ℤ) (q : ContentQuarantine)
      → IsQuarantine q
      → IsInt64 at
      → leb_ℤ again (pos 0) ≡ false
      → get_content_quarantine p d tx_id doc_name ≡ ok q
      → confirm_content_quarantine p d tx_id doc_name at ≡ (later, ok tt)
      → (get_content_quarantine p later tx_id doc_name ≡ ok (first_confirmed q at))
        × KeepsRecords tx_id doc_name d later
        × (confirm_content_quarantine p later tx_id doc_name again ≡ (later, ok tt))
  unfolding confirm_content_quarantine
  confirm_content_quarantine-replayed d later tx_id doc_name at again q hq hat positive read done =
      let computed : confirm_content_quarantine p d tx_id doc_name at ≡ (
          if leb_ℤ at (pos 0)
          then (d, err invalid_content_quarantine)
          else if ltb_ℤ (pos 0) q.confirmed_at_us
          then (d, ok tt)
          else put_content_quarantine p d (record q { confirmed_at_us = at })) =
        rw read in
      by_time (leb_ℤ at (pos 0)) (ltb_ℤ (pos 0) q.confirmed_at_us) refl refl (sym computed ∙ done)
    where
      by_time :
          (early confirmed : Bool)
          → leb_ℤ at (pos 0) ≡ early
          → ltb_ℤ (pos 0) q.confirmed_at_us ≡ confirmed
          → ◌≡◌ {A = D × Result QuarantineError (Unit {0})}
              (if early
                then (d, err invalid_content_quarantine)
                else if confirmed
                then (d, ok tt)
                else put_content_quarantine p d (record q { confirmed_at_us = at }))
              (later, ok tt)
          → (get_content_quarantine p later tx_id doc_name ≡ ok (first_confirmed q at))
            × KeepsRecords tx_id doc_name d later
            × (confirm_content_quarantine p later tx_id doc_name again ≡ (later, ok tt))
      by_time true confirmed h0 h1 h = cc
      by_time false true h0 h1 h =
          let same : later ≡ d = sym (ap (λ r. r.0) h) in
          let kept : ok (first_confirmed q at) ≡ ok q = rw h1 in
          rw same (
            read ∙ sym kept,
            λ tx_other doc_other differ. refl,
            confirm_content_quarantine-done d tx_id doc_name again q positive read h1,
          )
      by_time false false h0 h1 h =
          let (tx_same, doc_same) = get_content_quarantine-identity d tx_id doc_name q read in
          let q' : ContentQuarantine = record q { confirmed_at_us = at } in
          let (read_back, others) =
            put_content_quarantine-reads d later q'
              (record { block = hq.block; detected = hq.detected; confirmed = hat }) h in
          let set_time : ◌≡◌ {A = Result QuarantineError ContentQuarantine} (ok q')
              (ok (first_confirmed q at)) =
            rw h1 in
          let later_time : ltb_ℤ (pos 0) at ≡ true = above_zero at h0 in
          let read_at : get_content_quarantine p later tx_id doc_name ≡ ok q' =
            ap (λ t. get_content_quarantine p later t doc_name) (sym tx_same)
            ∙ (ap (get_content_quarantine p later q.transaction_id) (sym doc_same) ∙ read_back) in
          (
            read_at ∙ set_time,
            λ tx_other doc_other differ. others tx_other doc_other (λ same. differ (
                sym (ap (λ t. (t, doc_name)) tx_same)
                ∙ (sym (ap (λ n. (q.transaction_id, n)) doc_same) ∙ same))),
            confirm_content_quarantine-done later tx_id doc_name again q' positive read_at
                later_time,
          )

  get_content_quarantine-delete :
      (d later : D) (tx_id doc_name : List ℕ)
      → validate_identity tx_id doc_name ≡ ok tt
      → p.delete d (key_bytes tx_id doc_name) ≡ ok later
      → (get_content_quarantine p later tx_id doc_name ≡ err content_quarantine_not_found)
        × KeepsRecords tx_id doc_name d later
  unfolding get_content_quarantine content_quarantine_key
  get_content_quarantine-delete d later tx_id doc_name identity delete = (
    rw (identity, p.get-delete d (key_bytes tx_id doc_name) delete),
    λ tx_other doc_other.
        get_content_quarantine-other d later tx_id doc_name tx_other doc_other identity
          (λ other differ. p.get-delete_other d _ other delete differ),
  )

  -- When a release succeeds, the quarantine is not found, the records of other Documents are as
  -- before, and a release or a confirmation at a positive time that follows succeeds and changes
  -- nothing.
  pub release_content_quarantine-replayed :
      (d later : D) (tx_id doc_name : List ℕ) (again : ℤ)
      → leb_ℤ again (pos 0) ≡ false
      → release_content_quarantine p d tx_id doc_name ≡ (later, ok tt)
      → (get_content_quarantine p later tx_id doc_name ≡ err content_quarantine_not_found)
        × KeepsRecords tx_id doc_name d later
        × (release_content_quarantine p later tx_id doc_name ≡ (later, ok tt))
        × (confirm_content_quarantine p later tx_id doc_name again ≡ (later, ok tt))
  unfolding release_content_quarantine confirm_content_quarantine
  release_content_quarantine-replayed d later tx_id doc_name again positive done =
      let (key, is_key, h1) =
        step-eq-ok (content_quarantine_key tx_id doc_name) d (λ e. e) _ done in
      let (identity, same) = content_quarantine_key-valid tx_id doc_name is_key in
      let (gone, others) =
        by_read key identity same (get_content_quarantine p d tx_id doc_name) refl h1 in
      (gone, others, rw (is_key, gone), rw (positive, gone))
    where
      by_read :
          (key : List ℕ)
          → validate_identity tx_id doc_name ≡ ok tt
          → key_bytes tx_id doc_name ≡ key
          → (r : Result QuarantineError ContentQuarantine)
          → get_content_quarantine p d tx_id doc_name ≡ r
          → ◌≡◌ {A = D × Result QuarantineError (Unit {0})}
              (either r (missing d) (λ q. write d (p.delete d key)))
              (later, ok tt)
          → (get_content_quarantine p later tx_id doc_name ≡ err content_quarantine_not_found)
            × KeepsRecords tx_id doc_name d later
      by_read key identity same (ok q) is h =
          let (next, deleted, h3) =
            step-eq-ok (p.delete d key) d pebble_error (λ next. (next, ok tt)) h in
          let delete : p.delete d (key_bytes tx_id doc_name) ≡ ok later =
            ap (p.delete d) same ∙ (deleted ∙ ap (λ r. ok r.0) h3) in
          get_content_quarantine-delete d later tx_id doc_name identity delete
      by_read key identity same (err content_quarantine_not_found) is h =
          let unchanged : later ≡ d = sym (ap (λ r. r.0) h) in
          rw unchanged (is, λ tx_other doc_other differ. refl)
      by_read key identity same (err invalid_content_quarantine) is h = cc
      by_read key identity same (err (pebble_error e)) is h = cc
