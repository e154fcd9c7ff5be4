-- ===== src/BookingService/Agreement.antt =====
-- The frontend's bookings against the service's rules.
use traffic_service.BookingService.Rows.{StoredBooking, BookingDb, get_by_ids, cancel_row}
use traffic_service.BookingService.Service.{invalid_transition, refused, cancel_own_booking}
use traffic_service.Api.Routes.{RouteResult, Segment}
use traffic_service.Bookings.{same_status}
use traffic_service.Bookings.CardDetails.{booking_card, can_cancel}
use traffic_service.Api.Bookings.{
  BookingStatus, pending, approved, cancelled, Booking, rejected, expired, SegmentReservation,
}
use traffic_service.BookingService.{can_transition}
use traffic_service.Base.{
  Bool-cases, is_some, Text, ◌≡◌, refl, ◌∙◌, ◌≢◌, ◌↔◌, inl, inr, Bool, true, false, ◌||◌, Option,
  some, List, arith,
}

can_cancel-allowed :
    (s : BookingStatus)
    → (same_status s pending || same_status s approved) ≡ can_transition s cancelled
unfolding can_transition
can_cancel-allowed pending = refl
can_cancel-allowed approved = refl
can_cancel-allowed rejected = refl
can_cancel-allowed cancelled = refl
can_cancel-allowed expired = refl

refusal :
    (new_id correlation booking driver : Text) (db : BookingDb) (row : StoredBooking)
    → get_by_ids db booking driver ≡ some row
    → (can_transition row.status cancelled ≡ false
        → cancel_own_booking new_id correlation booking driver db ≡ refused invalid_transition)
      × (can_transition row.status cancelled ≡ true
          → cancel_own_booking new_id correlation booking driver db ≢ refused invalid_transition)
unfolding cancel_own_booking get_by_ids cancel_row
refusal new_id correlation booking driver db row there = (
  (λ barred. rw (cancel_own_booking, there) (rw barred refl)),
  (λ may. rw (cancel_own_booking, there) (rw may (λ e. cc))),
)

-- Whatever a card has loaded and whether it is open, it has the button "Cancel" exactly when the
-- service would not refuse to cancel the driver's row of that status.
pub cancel_button-allowed :
    (to_locale to_time : Text → Text) (b : Booking) (route : Option RouteResult)
    (segments : Option (List Segment)) (loads : Bool)
    (reservations : Option (List SegmentReservation)) (busy expanded : Bool)
    (new_id correlation driver : Text) (db : BookingDb) (row : StoredBooking)
    → get_by_ids db b.booking_id driver ≡ some row
    → row.status ≡ b.status
    → let card = booking_card to_locale to_time b route segments loads reservations busy expanded in
      (is_some card.cancel_button ≡ true)
      ↔ (cancel_own_booking new_id correlation b.booking_id driver db ≢ refused invalid_transition)
unfolding booking_card can_cancel
cancel_button-allowed to_locale to_time b route segments loads reservations busy expanded new_id
      correlation driver db row there agrees =
    let (bars, lets) = refusal new_id correlation b.booking_id driver db row there in
    let same : (same_status b.status pending || same_status b.status approved)
        ≡ can_transition row.status cancelled =
      can_cancel-allowed b.status ∙ rw agrees refl in
    elim (Bool-cases (can_transition row.status cancelled)) [
      | inl may ↦ ((λ h. lets may), (λ h. ground (arith, may, same)))
      | inr barred ↦
          ((λ h. absurd (ground (arith, barred, same, h))), (λ h. absurd (h (bars barred))))
    ]
