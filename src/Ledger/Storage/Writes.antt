-- ===== src/Ledger/Storage/Writes.antt =====
-- The effects of the calls of internal/data/ledger_repository.go on reservations and ledger entries.
use mathlib.Core.Path.{subst}
use ai_go.Common.{true, false, ◌≡◌, refl, sym, ◌∙◌, ◌⊎◌, inl, inr, Option, none, some, arith}
use ai_go.Common.Text.{Text}
use ai_go.Common.Result.{ok}
use ai_go.Common.Clock.{Time}
use ai_go.Mongo.{Collection, Reply, reply, no_reply}
use ai_go.Ledger.Model.{
  ReservationStatus, reserved, reversed, confiscated, Reservation, LedgerEntry,
}
use ai_go.Ledger.Contract.{View, Reservations, Entries}
use ai_go.Ledger.Documents.{
  ReservationDocument, to_biz_reservation, is_open_gate, new_reservation_document,
}
use ai_go.Ledger.Storage.{
  Database, Tables, create_reservation, transition_reservation, append_ledger_entry, append_reply,
  can_transition, transition, entry_document,
}
use ai_go.Ledger.Storage.Effects.{
  view, reservation_effect, insert_reservation_effect, insert_entry_effect,
}

can_transition-reserved :
    (d : ReservationDocument)
    → can_transition reserved d ≡ true
    → ((to_biz_reservation d).status ≡ reserved) × (is_open_gate d.publication_state ≡ true)
unfolding to_biz_reservation
can_transition-reserved d h = ground arith

transition-to_biz :
    (to : ReservationStatus) (at : Time) (d : ReservationDocument)
    → to_biz_reservation (transition reserved to at d)
      ≡ record (to_biz_reservation d) { status = to; updated_at = at }
unfolding to_biz_reservation
transition-to_biz reserved at d = refl
transition-to_biz reversed at d = refl
transition-to_biz confiscated at d = refl
transition-to_biz (ReservationStatus.other_status x) at d = refl

transition-gate :
    (to : ReservationStatus) (at : Time) (d : ReservationDocument)
    → (to ≡ reversed) ⊎ (to ≡ confiscated)
    → is_open_gate (transition reserved to at d).publication_state ≡ false
transition-gate to at d (inl e) = rw e refl
transition-gate to at d (inr e) = rw e refl

module _ (db : Database) where
  pub create_law :
      (n : Reservation) (s t : Tables db)
      → create_reservation db n s ≡ (ok tt, t)
      → Reservations (view db) s t n.creation_id none n
        × (View.may_settle (view db) t n.creation_id ≡ true)
  unfolding create_reservation new_reservation_document to_biz_reservation
  create_law n s t h =
      let x =
        Collection.insert_one db.reservations n.creation_id (new_reservation_document n)
          s.reservations in
      let facts : (x.0 ≡ reply true) × (t ≡ record s { reservations = x.1 }) = ground arith in
      let (gate, effect) =
        insert_reservation_effect db n.creation_id (new_reservation_document n) s facts.0 in
      rw facts.1 (effect, gate)

  pub transition_law :
      (c : Text) (to : ReservationStatus) (at : Time) (s t : Tables db)
      → transition_reservation db c reserved to at s ≡ (ok true, t)
      → (n : Reservation) × (n.status ≡ reserved)
        × (View.may_settle (view db) s c ≡ true)
        × Reservations (view db) s t c (some n) (record n { status = to; updated_at = at })
        × ((to ≡ reversed) ⊎ (to ≡ confiscated) → View.may_settle (view db) t c ≡ false)
  unfolding transition_reservation
  transition_law c to at s t h =
      let x =
        Collection.update_one db.reservations c (can_transition reserved)
          (transition reserved to at) s.reservations in
      let facts : (x.0 ≡ reply true) × (t ≡ record s { reservations = x.1 }) = ground arith in
      let (doc, passed, before, after_, effect) =
        reservation_effect db c (can_transition reserved) (transition reserved to at) s facts.0 in
      (
        to_biz_reservation doc,
        (can_transition-reserved doc passed).0,
        before ∙ (can_transition-reserved doc passed).1,
        subst
            (λ t'.
              Reservations (view db) s t' c (some (to_biz_reservation doc))
                (record (to_biz_reservation doc) { status = to; updated_at = at }))
            (sym facts.1) (rw (transition-to_biz to at doc) at effect),
        λ k.
            subst (λ t'. View.may_settle (view db) t' c ≡ false) (sym facts.1)
              (after_ ∙ transition-gate to at doc k),
      )

  append_reply-law :
      (e : LedgerEntry) (r : Reply (Option ReservationDocument)) (s t : Tables db)
      → append_reply db e r s ≡ (ok tt, t)
      → Entries (view db) s t e
  unfolding append_reply
  append_reply-law e no_reply s t h = absurd (cc)
  append_reply-law e (reply none) s t h = absurd (cc)
  append_reply-law e (reply (some d)) s t h =
      let x =
        Collection.insert_one db.ledger_entries e.idempotency_key (entry_document e d)
          s.ledger_entries in
      let facts : (x.0 ≡ reply true) × (t ≡ record s { ledger_entries = x.1 }) = ground arith in
      rw facts.1 (insert_entry_effect db e (entry_document e d) s refl facts.0)

  pub append_law :
      (e : LedgerEntry) (s t : Tables db)
      → append_ledger_entry db e s ≡ (ok tt, t)
      → Entries (view db) s t e
  unfolding append_ledger_entry
  append_law e s t h =
      append_reply-law e (Collection.find_one db.reservations e.creation_id s.reservations) s t h
