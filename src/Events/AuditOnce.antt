-- ===== src/Events/AuditOnce.antt =====
-- The audit log after any deliveries: NATS may deliver a message any number of times and in any
-- order, and an attempt may fail.
use cloud_mesh.Common.{
  ◌≡◌, ◌≢◌, refl, ap, sym, subst, Option-cases, ◌∙◌, String, Bool, false, Option, none, some, List,
  [], ◌∷◌, ◌++◌, All, IsIn, All-map, map, Bool-cases, ◌⊎◌, inl, inr,
}
use cloud_mesh.Common.Unique.{
  has_key, IsDistinct, append-IsDistinct, has_key-in-append, has_key-last,
}
use cloud_mesh.Events.Subscribers.{AuditRow, audit_key}
use mathlib.Core.List.{append_assoc, append-nil}
use cloud_mesh.Events.Audit.{
  Delivery, IsKept, apply_row, row_of_message, deliver, deliver_all, deliver_step,
}

module _ (is_zod_uuid : String → Bool) where
  -- What every insertion keeps: no event has two rows, and rows are only added, by what is asked for.
  abbrev pub IsGrown : Option AuditRow → List AuditRow → List AuditRow → Type 0
  IsGrown wanted rows rows' =
      (rows' ≡ rows)
      ⊎ ((row : AuditRow) × (wanted ≡ some row)
          × (has_key audit_key row.event_id rows ≡ false)
          × (rows' ≡ rows ++ row ∷ []))

  apply_row-IsGrown :
      (fault : Option String) (wanted : Option AuditRow) (rows : List AuditRow)
      → IsGrown wanted rows (apply_row fault wanted rows)
  apply_row-IsGrown (some error) wanted rows = inl refl
  apply_row-IsGrown none none rows = inl refl
  apply_row-IsGrown none (some row) rows = elim (Bool-cases (has_key audit_key row.event_id rows)) [
    | inl known ↦ rw (apply_row, known) (inl refl)
    | inr new ↦ rw (apply_row, new) (inr (row, refl, new, refl))
  ]

  deliver-IsGrown :
      (d : Delivery) (rows : List AuditRow)
      → IsGrown (row_of_message is_zod_uuid d.raw) rows (deliver is_zod_uuid d rows).0
  deliver-IsGrown d rows =
      subst (IsGrown (row_of_message is_zod_uuid d.raw) rows)
        (sym (deliver_step is_zod_uuid d rows))
        (apply_row-IsGrown d.fault (row_of_message is_zod_uuid d.raw) rows)

  IsGrown-IsDistinct :
      (wanted : Option AuditRow) (rows rows' : List AuditRow)
      → IsGrown wanted rows rows'
      → IsDistinct audit_key rows
      → IsDistinct audit_key rows'
  IsGrown-IsDistinct wanted rows rows' (inl same) d = rw same d
  IsGrown-IsDistinct wanted rows rows' (inr (row, is, new, grown)) d =
      rw grown (append-IsDistinct audit_key rows row d new)

  IsGrown-IsKept :
      (wanted kept : Option AuditRow) (rows rows' : List AuditRow)
      → IsGrown wanted rows rows'
      → IsKept kept rows
      → IsKept kept rows'
  IsGrown-IsKept wanted none rows rows' g h = tt
  IsGrown-IsKept wanted (some k) rows rows' (inl same) h = rw same h
  IsGrown-IsKept wanted (some k) rows rows' (inr (row, is, new, grown)) h =
      rw grown (has_key-in-append audit_key k.event_id rows (row ∷ []) h)

  -- An attempt that does not fail leaves the row that the message asks for.
  apply_row-IsKept :
      (wanted : Option AuditRow) (rows : List AuditRow) → IsKept wanted (apply_row none wanted rows)
  apply_row-IsKept none rows = tt
  apply_row-IsKept (some row) rows = elim (Bool-cases (has_key audit_key row.event_id rows)) [
    | inl known ↦ rw (apply_row, known) known
    | inr new ↦ rw (apply_row, new) (has_key-last audit_key rows row)
  ]

  apply_row_again :
      (fault : Option String) (wanted : Option AuditRow) (rows : List AuditRow)
      → IsKept wanted rows
      → apply_row fault wanted rows ≡ rows
  apply_row_again (some error) wanted rows h = refl
  apply_row_again none none rows h = refl
  apply_row_again none (some row) rows h = rw (apply_row, h) refl

  -- A delivery whose attempt does not fail has its row.
  abbrev pub IsAudited : List AuditRow → Delivery → Type 0
  IsAudited rows d = (d.fault ≢ none) ⊎ IsKept (row_of_message is_zod_uuid d.raw) rows

  deliver-IsAudited :
      (d : Delivery) (rows : List AuditRow) → IsAudited (deliver is_zod_uuid d rows).0 d
  deliver-IsAudited d rows = elim (Option-cases d.fault) [
    | inl fine ↦
        let is : (deliver is_zod_uuid d rows).0
            ≡ apply_row none (row_of_message is_zod_uuid d.raw) rows =
          deliver_step is_zod_uuid d rows
          ∙ ap (λ f. apply_row f (row_of_message is_zod_uuid d.raw) rows) fine in
        inr (
          subst (IsKept (row_of_message is_zod_uuid d.raw)) (sym is)
            (apply_row-IsKept (row_of_message is_zod_uuid d.raw) rows))
    | inr (error, failed) ↦ inl (λ fine. let e : none ≡ some error = sym fine ∙ failed in cc)
  ]

  deliver-keeps :
      (d other : Delivery) (rows : List AuditRow)
      → IsAudited rows other
      → IsAudited (deliver is_zod_uuid d rows).0 other
  deliver-keeps d other rows (inl failed) = inl failed
  deliver-keeps d other rows (inr kept) = inr (
      IsGrown-IsKept (row_of_message is_zod_uuid d.raw) (row_of_message is_zod_uuid other.raw) rows
        (deliver is_zod_uuid d rows).0 (deliver-IsGrown d rows) kept)

  deliver_again :
      (d : Delivery) (rows : List AuditRow)
      → IsAudited rows d
      → (deliver is_zod_uuid d rows).0 ≡ rows
  deliver_again d rows (inr kept) =
      deliver_step is_zod_uuid d rows
      ∙ apply_row_again d.fault (row_of_message is_zod_uuid d.raw) rows kept
  deliver_again d rows (inl failed) = elim (Option-cases d.fault) [
    | inl fine ↦ absurd (failed fine)
    | inr (error, is) ↦
        deliver_step is_zod_uuid d rows
        ∙ ap (λ f. apply_row f (row_of_message is_zod_uuid d.raw) rows) is
  ]

  deliver_all-keeps :
      (ds : List Delivery) (d : Delivery) (rows : List AuditRow)
      → IsAudited rows d
      → IsAudited (deliver_all is_zod_uuid ds rows) d
  unfolding deliver_all
  deliver_all-keeps [] d rows h = h
  deliver_all-keeps (e ∷ ds) d rows h =
      deliver_all-keeps ds d (deliver is_zod_uuid e rows).0 (deliver-keeps e d rows h)

  deliver_all-IsAudited :
      (ds : List Delivery) (rows : List AuditRow)
      → All (IsAudited (deliver_all is_zod_uuid ds rows)) ds
  unfolding deliver_all
  deliver_all-IsAudited [] rows = tt
  deliver_all-IsAudited (d ∷ ds) rows = (
    deliver_all-keeps ds d (deliver is_zod_uuid d rows).0 (deliver-IsAudited d rows),
    deliver_all-IsAudited ds (deliver is_zod_uuid d rows).0,
  )

  deliver_all_again :
      (ds : List Delivery) (rows : List AuditRow)
      → All (IsAudited rows) ds
      → deliver_all is_zod_uuid ds rows ≡ rows
  unfolding deliver_all
  deliver_all_again [] rows h = refl
  deliver_all_again (d ∷ ds) rows (h, hs) =
      ap (deliver_all is_zod_uuid ds) (deliver_again d rows h) ∙ deliver_all_again ds rows hs

  deliver_all-IsDistinct :
      (ds : List Delivery) (rows : List AuditRow)
      → IsDistinct audit_key rows
      → IsDistinct audit_key (deliver_all is_zod_uuid ds rows)
  unfolding deliver_all
  deliver_all-IsDistinct [] rows h = h
  deliver_all-IsDistinct (d ∷ ds) rows h =
      deliver_all-IsDistinct ds (deliver is_zod_uuid d rows).0 (
        IsGrown-IsDistinct (row_of_message is_zod_uuid d.raw) rows (deliver is_zod_uuid d rows).0
          (deliver-IsGrown d rows) h)

  -- The log is only added to, and each new row is the one that a delivered message asks for.
  abbrev pub IsLogged : List Delivery → List AuditRow → List AuditRow → Type 0
  IsLogged ds rows rows' =
      (added : List AuditRow) × (rows' ≡ rows ++ added)
      × All (λ row. IsIn (some row) (map (λ d. row_of_message is_zod_uuid d.raw) ds)) added

  grown-IsLogged :
      (d : Delivery) (ds : List Delivery) (rows rows₁ rows₂ : List AuditRow)
      → IsGrown (row_of_message is_zod_uuid d.raw) rows rows₁
      → IsLogged ds rows₁ rows₂
      → IsLogged (d ∷ ds) rows rows₂
  grown-IsLogged d ds rows rows₁ rows₂ (inl same) (added, is, from) =
      (added, is ∙ ap (λ r. r ++ added) same, All-map _ _ added (λ row. inr) from)
  grown-IsLogged d ds rows rows₁ rows₂ (inr (row, wanted, new, grown)) (added, is, from) = (
    row ∷ added,
    is ∙ ap (λ r. r ++ added) grown ∙ append_assoc rows (row ∷ []) added,
    (inl wanted, All-map _ _ added (λ row. inr) from),
  )

  deliver_all-IsLogged :
      (ds : List Delivery) (rows : List AuditRow)
      → IsLogged ds rows (deliver_all is_zod_uuid ds rows)
  unfolding deliver_all
  deliver_all-IsLogged [] rows = ([], sym (append-nil rows), tt)
  deliver_all-IsLogged (d ∷ ds) rows =
      grown-IsLogged d ds rows (deliver is_zod_uuid d rows).0
        (deliver_all is_zod_uuid ds (deliver is_zod_uuid d rows).0) (deliver-IsGrown d rows)
        (deliver_all-IsLogged ds (deliver is_zod_uuid d rows).0)

  -- Whatever is delivered, how often and in which order, with whatever failures in between: no event
  -- has two rows in the log, each message that was handled once without a failure has its row, if it
  -- asks for one, rows are only added, each one asked for by a delivered message, and delivering
  -- everything again changes nothing. No event has two rows beforehand, as in an empty log.
  pub audit_once :
      (ds : List Delivery) (rows : List AuditRow)
      → IsDistinct audit_key rows
      → IsDistinct audit_key (deliver_all is_zod_uuid ds rows)
        × All (IsAudited (deliver_all is_zod_uuid ds rows)) ds
        × IsLogged ds rows (deliver_all is_zod_uuid ds rows)
        × (deliver_all is_zod_uuid ds (deliver_all is_zod_uuid ds rows)
            ≡ deliver_all is_zod_uuid ds rows)
  audit_once ds rows h = (
    deliver_all-IsDistinct ds rows h,
    deliver_all-IsAudited ds rows,
    deliver_all-IsLogged ds rows,
    deliver_all_again ds (deliver_all is_zod_uuid ds rows) (deliver_all-IsAudited ds rows),
  )
