-- ===== src/ConflictDetection/Handled.antt =====
-- conflict-detection-service: what the two handlers of the consumers come to.
use traffic_service.ConflictDetection.Tables.{RoadSegment, StoredRoute, delete_by_booking}
use traffic_service.ConflictDetection.Consumer.{
  Db, exception, mark_processed, Envelope, assess_route_use_case, release_reservations_use_case,
  CreatedData, UpdatedData, created_stream, updated_stream, handle_booking_created, frees,
  handle_booking_updated,
}
use traffic_service.ConflictDetection.Service.{release_reservations}
use traffic_service.Base.{
  Bool-cases, Option-cases, bind_some, Text, ℕ, ◌≡◌, refl, ◌⊎◌, inl, inr, Option, some, List,
}

-- The event lacks something, or its booking is assessed.
pub handle_booking_created-cases :
    (from_iso : Text → Option ℕ) (routes : List StoredRoute) (segments : List RoadSegment)
    (consumer new_id : Text) (envelope : Envelope CreatedData) (db : Db)
    → let run = handle_booking_created from_iso routes segments consumer new_id envelope db in
      (run ≡ exception)
      ⊎ ((booking : Text) × (route : Text) × (departure : ℕ) × (envelope.payload.booking_id
            ≡ some booking)
          × (run
              ≡ assess_route_use_case routes segments booking route departure new_id
                  envelope.event_id consumer created_stream envelope.correlation_id db))
unfolding handle_booking_created
handle_booking_created-cases from_iso routes segments consumer new_id envelope db =
    elim (Option-cases envelope.payload.booking_id) [
      | inl b ↦ inl (rw (handle_booking_created, b) refl)
      | inr (booking, b) ↦ elim (Option-cases envelope.payload.route_id) [
        | inl r ↦ inl (rw (handle_booking_created, b) (rw r refl))
        | inr (route, r) ↦
            elim (Option-cases (bind_some envelope.payload.departure_time from_iso)) [
              | inl t ↦ inl (rw (handle_booking_created, b) (rw r (rw t refl)))
              | inr (departure, t) ↦
                  inr (
                    booking,
                    route,
                    departure,
                    b,
                    rw (handle_booking_created, b) (rw r (rw t refl)),
                  )
            ]
      ]
    ]

-- The event lacks something, or it is marked, with the booking's reservations deleted or not.
pub handle_booking_updated-cases :
    (consumer : Text) (envelope : Envelope UpdatedData) (db : Db)
    → let run = handle_booking_updated consumer envelope db in
      (run ≡ exception)
      ⊎ ((booking : Text) × (run
            ≡ mark_processed envelope.event_id consumer updated_stream
                (record db { reservations = (delete_by_booking db.reservations booking).0 })))
      ⊎ (run ≡ mark_processed envelope.event_id consumer updated_stream db)
unfolding handle_booking_updated release_reservations_use_case release_reservations
handle_booking_updated-cases consumer envelope db =
    elim (Option-cases envelope.payload.booking_id) [
      | inl b ↦ inl (rw (handle_booking_updated, b) refl)
      | inr (booking, b) ↦ elim (Option-cases envelope.payload.status) [
        | inl s ↦ inl (rw (handle_booking_updated, b) (rw s refl))
        | inr (status, s) ↦ elim (Bool-cases (frees status)) [
          | inl f ↦ inr (inl (booking, rw (handle_booking_updated, b) (rw s (rw f refl))))
          | inr f ↦ inr (inr (rw (handle_booking_updated, b) (rw s (rw f refl))))
        ]
      ]
    ]
