-- ===== src/BookingService/Reached.antt =====
-- The booking service's tables under its requests, its expiry loop and the answers that it
-- consumes, in whatever order they come.
use traffic_service.BookingService.{can_transition}
use traffic_service.BookingService.Rows.{
  StoredBooking, BookingDb, find_expired, mark_event_processed, get_by_ids, is_event_processed,
  cancel_row,
}
use traffic_service.BookingService.Replay.{
  IsReplayed, update_status-IsReplayed, created-IsReplayed, cancel_row-IsReplayed,
}
use traffic_service.BookingService.Handler.{
  CreateRequest, create_booking_handler, cancel_booking_handler, booking_of,
}
use traffic_service.BookingService.Service.{
  RouteAssessedEvent, handle_route_assessed, expire_each, expire_bookings, handle_message,
  cancel_own_booking, assessed_status, cancel_envelope, message_attempts, handle_message_with_retry,
  Fault, no_fault, lost_before_update, lost_before_mark, handle_message_under,
}
use traffic_service.Api.Bookings.{expired, cancelled}
use traffic_service.Base.{
  ltb, Bool-cases, Option-cases, any, Text, codes, ◌===◌, ℕ, zero, suc, ◌+◌, refl, inl, inr, Option,
  none, some, List, [], ◌∷◌,
}

module _ (to_text : ℕ → Text) (parse_uuid : Text → Option Text) where
  -- A request to create or to cancel, a run of the expiry loop, or a message on route.assessed;
  -- the ids of new events may be any.
  pub data BookingStep : BookingDb → BookingDb → Type 0 where
    asks_new :
        (now : ℕ) (new_booking_id new_id correlation : Text) (driver : Option Text)
        (req : Option CreateRequest) (db : BookingDb)
        → BookingStep db
            (create_booking_handler to_text now new_booking_id new_id correlation driver req db).1
    asks_cancel :
        (new_id correlation : Text) (booking driver : Option Text) (db : BookingDb)
        → BookingStep db (cancel_booking_handler new_id correlation booking driver db).1
    time_passes :
        (new_ids : ℕ → Text) (correlation : Text) (now : ℕ) (db : BookingDb)
        → BookingStep db (expire_bookings new_ids correlation now db)
    is_answered :
        (fault : Fault) (new_id event_id correlation : Text) (event : RouteAssessedEvent)
        (db : BookingDb)
        → BookingStep db
            (handle_message_under parse_uuid fault new_id event_id correlation event db).1

  pub data BookingReach : BookingDb → Type 0 where
    no_bookings : BookingReach (record { bookings = []; outbox = []; processed = [] })
    one_more : {db after : BookingDb} → BookingReach db → BookingStep db after → BookingReach after

  pub create_booking_handler-IsReplayed :
      (now : ℕ) (new_booking_id new_id correlation : Text) (driver : Option Text)
      (req : Option CreateRequest) (db : BookingDb)
      → IsReplayed db
      → IsReplayed
          (create_booking_handler to_text now new_booking_id new_id correlation driver req db).1
  unfolding create_booking_handler booking_of
  create_booking_handler-IsReplayed now new_booking_id new_id correlation none req db h = h
  create_booking_handler-IsReplayed now new_booking_id new_id correlation (some driver) none db h =
      h
  create_booking_handler-IsReplayed now new_booking_id new_id correlation (some driver) (some req)
        db h =
      elim (Bool-cases (ltb req.departure_time now)) [
        | inl past ↦ rw past h
        | inr future ↦
            rw future (elim (Bool-cases (any (λ b. b.booking_id === new_booking_id) db.bookings)) [
              | inl taken ↦ rw taken h
              | inr first_use ↦ rw first_use (
                  created-IsReplayed
                    (record (booking_of driver now req) { booking_id = new_booking_id }) driver
                    req.route_id (to_text req.departure_time) _ db first_use refl refl h)
            ])
      ]

  pub cancel_booking_handler-IsReplayed :
      (new_id correlation : Text) (booking driver : Option Text) (db : BookingDb)
      → IsReplayed db
      → IsReplayed (cancel_booking_handler new_id correlation booking driver db).1
  unfolding cancel_booking_handler
  cancel_booking_handler-IsReplayed new_id correlation none driver db h = h
  cancel_booking_handler-IsReplayed new_id correlation (some booking) none db h = h
  cancel_booking_handler-IsReplayed new_id correlation (some booking) (some driver) db h =
      elim (Option-cases (get_by_ids db booking driver)) [
        | inl e ↦ rw (cancel_booking_handler, cancel_own_booking, e) h
        | inr (row, e) ↦ elim (Bool-cases (can_transition row.status cancelled)) [
          | inr barred ↦ rw (cancel_booking_handler, cancel_own_booking, e) (rw barred h)
          | inl may ↦
              rw (cancel_booking_handler, cancel_own_booking, e)
                (rw may
                  (elim (Option-cases
                    (cancel_row booking driver (cancel_envelope new_id correlation booking driver)
                      db).0) [
                        | inl gone ↦ rw gone (
                            cancel_row-IsReplayed booking driver
                              (cancel_envelope new_id correlation booking driver) db row e refl h)
                        | inr (b, gave) ↦ rw gave (
                            cancel_row-IsReplayed booking driver
                              (cancel_envelope new_id correlation booking driver) db row e refl h)
                      ]))
        ]
      ]

  pub expire_each-IsReplayed :
      (new_ids : ℕ → Text) (n : ℕ) (correlation : Text) (bs : List StoredBooking) (db : BookingDb)
      → IsReplayed db
      → IsReplayed (expire_each new_ids n correlation bs db)
  unfolding expire_each
  expire_each-IsReplayed new_ids n correlation [] db h = h
  expire_each-IsReplayed new_ids n correlation (b ∷ bs) db h =
      expire_each-IsReplayed new_ids (suc n) correlation bs _
        (update_status-IsReplayed b.booking_id expired (new_ids n) correlation db h)

  handle_route_assessed-IsReplayed :
      (new_id correlation : Text) (event : RouteAssessedEvent) (db : BookingDb)
      → IsReplayed db
      → IsReplayed (handle_route_assessed parse_uuid new_id correlation event db).1
  unfolding handle_route_assessed
  handle_route_assessed-IsReplayed new_id correlation event db h =
      elim (Option-cases (parse_uuid event.booking_id)) [
        | inl e ↦ rw (handle_route_assessed, e) h
        | inr (booking, e) ↦
            rw (handle_route_assessed, e)
              (update_status-IsReplayed booking (assessed_status event.segments_available) new_id
                correlation db h)
      ]

  mark_event_processed-IsReplayed :
      (event consumer : Text) (db : BookingDb)
      → IsReplayed db
      → IsReplayed (mark_event_processed event consumer db)
  unfolding mark_event_processed
  mark_event_processed-IsReplayed event consumer db h =
      elim (Bool-cases (is_event_processed event consumer db)) [
        | inl seen ↦ rw seen h
        | inr unseen ↦ rw unseen h
      ]

  handle_message-IsReplayed :
      (new_id event_id correlation : Text) (event : RouteAssessedEvent) (db : BookingDb)
      → IsReplayed db
      → IsReplayed (handle_message parse_uuid new_id event_id correlation event db).1
  unfolding handle_message handle_route_assessed mark_event_processed
  handle_message-IsReplayed new_id event_id correlation event db h =
      elim (Bool-cases (is_event_processed event_id (codes "booking-service") db)) [
        | inl seen ↦ rw (handle_message, seen) h
        | inr unseen ↦
            rw (handle_message, unseen)
              (elim (Bool-cases (handle_route_assessed parse_uuid new_id correlation event db).0) [
                | inl fine ↦ rw fine (
                    mark_event_processed-IsReplayed event_id (codes "booking-service") _
                      (handle_route_assessed-IsReplayed new_id correlation event db h))
                | inr failed_here ↦
                    rw failed_here (handle_route_assessed-IsReplayed new_id correlation event db h)
              ])
      ]

  handle_message_under-IsReplayed :
      (fault : Fault) (new_id event_id correlation : Text) (event : RouteAssessedEvent)
      (db : BookingDb)
      → IsReplayed db
      → IsReplayed (handle_message_under parse_uuid fault new_id event_id correlation event db).1
  unfolding handle_message_under
  handle_message_under-IsReplayed no_fault new_id event_id correlation event db h =
      handle_message-IsReplayed new_id event_id correlation event db h
  handle_message_under-IsReplayed lost_before_update new_id event_id correlation event db h = h
  handle_message_under-IsReplayed lost_before_mark new_id event_id correlation event db h =
      elim (Bool-cases (is_event_processed event_id (codes "booking-service") db)) [
        | inl seen ↦ rw seen h
        | inr unseen ↦ rw unseen (handle_route_assessed-IsReplayed new_id correlation event db h)
      ]

  -- In all tables that the service reaches no two bookings have one id, and replaying the events
  -- of the outbox in their order gives the status of each booking, and none where there is no row.
  pub BookingReach-IsReplayed : {db : BookingDb} → BookingReach db → IsReplayed db
  unfolding expire_bookings
  BookingReach-IsReplayed no_bookings = (refl, λ id. refl)
  BookingReach-IsReplayed
        (one_more r (asks_new now new_booking_id new_id correlation driver req db)) =
      create_booking_handler-IsReplayed now new_booking_id new_id correlation driver req db
        (BookingReach-IsReplayed r)
  BookingReach-IsReplayed (one_more r (asks_cancel new_id correlation booking driver db)) =
      cancel_booking_handler-IsReplayed new_id correlation booking driver db
        (BookingReach-IsReplayed r)
  BookingReach-IsReplayed (one_more r (time_passes new_ids correlation now db)) =
      expire_each-IsReplayed new_ids 0 correlation (find_expired now db) db
        (BookingReach-IsReplayed r)
  BookingReach-IsReplayed (one_more r (is_answered fault new_id event_id correlation event db)) =
      handle_message_under-IsReplayed fault new_id event_id correlation event db
        (BookingReach-IsReplayed r)

  pub handle_message_with_retry-IsReplayed :
      (faults : ℕ → Fault) (new_ids : ℕ → Text) (event_id correlation : Text)
      (event : RouteAssessedEvent) (db : BookingDb)
      → IsReplayed db
      → IsReplayed
          (handle_message_with_retry parse_uuid faults new_ids event_id correlation event db)
  unfolding handle_message_with_retry message_attempts
  handle_message_with_retry-IsReplayed faults new_ids event_id correlation event db h = go 3 1 db h
    where
      go :
          (left n : ℕ) (d : BookingDb)
          → IsReplayed d
          → IsReplayed
              (message_attempts parse_uuid faults new_ids event_id correlation event left n d)
      go zero n d k = k
      go (suc left) n d k =
          let after =
            handle_message_under-IsReplayed (faults n) (new_ids n) event_id correlation event d k in
          elim (Bool-cases
            (handle_message_under parse_uuid (faults n) (new_ids n) event_id correlation event
              d).0) [
                | inl fine ↦ rw fine after
                | inr failing ↦ rw failing (go left (n + 1) _ after)
              ]
