-- ===== src/BookingService.antt =====
-- services/booking-service/internal/domain/booking.go: which changes of status the service allows.
pub mod Agreement
pub mod Rows
pub mod Service
pub mod Handler
pub mod Replay
pub mod Reached
pub mod Answers
use traffic_service.Api.Bookings.{BookingStatus, pending, approved, rejected, cancelled, expired}
use traffic_service.Bookings.{same_status}
use traffic_service.Base.{Bool, false, ◌||◌}

-- `(*Booking).CanTransition`
unfoldable pub can_transition : BookingStatus → BookingStatus → Bool
can_transition pending to =
    same_status to approved
    || (same_status to cancelled || (same_status to expired || same_status to rejected))
can_transition approved to = same_status to cancelled || same_status to expired
can_transition _ to = false
