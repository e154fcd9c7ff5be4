-- ===== src/BookingService/Rows.antt =====
-- services/booking-service/internal: the bookings and the outbox as
-- infrastructure/postgres/booking_repository.go keeps them, one function per query. A query that
-- the database refuses changes nothing.
use traffic_service.Api.Bookings.{BookingStatus, pending, approved, cancelled}
use traffic_service.Bookings.{same_status}
use traffic_service.Base.{
  ltb, if◌then◌else◌, filter, find, any, Text, ◌===◌, ℕ, Bool, ◌&&◌, ◌||◌, Option, none, some, List,
  [], ◌∷◌, ◌++◌,
}

-- `domain.Booking`; times in whole milliseconds.
pub record StoredBooking : Type 0 where
  pub booking_id : Text
  pub driver_id : Text
  pub route_id : Text
  pub departure_time : ℕ
  pub estimated_arrival : Option ℕ
  pub status : BookingStatus
  pub created_at : ℕ
  pub expires_at : Option ℕ

-- `BookingCreatedEvent` and `BookingUpdatedEvent`
pub data BookingEvent : Type 0 where
  booking_created : (booking_id driver_id route_id departure_time : Text) → BookingEvent
  booking_updated : (booking_id driver_id : Text) (status : BookingStatus) → BookingEvent

pub record EventEnvelope : Type 0 where
  pub event_id : Text
  pub correlation_id : Text
  pub event : BookingEvent

-- The outbox is in the order of its ids.
pub record BookingDb : Type 0 where
  pub bookings : List StoredBooking
  pub outbox : List EventEnvelope
  pub processed : List (Text × Text)

abbrev pub insert_outbox : EventEnvelope → BookingDb → BookingDb
insert_outbox envelope db = record db { outbox = db.outbox ++ (envelope ∷ []) }

-- `Create`; the table's primary key refuses an id that is there, with `none`.
unfoldable pub create_row : StoredBooking → EventEnvelope → BookingDb → Option BookingDb
create_row booking envelope db =
    if any (λ b. b.booking_id === booking.booking_id) db.bookings
    then none
    else some (insert_outbox envelope (record db { bookings = db.bookings ++ (booking ∷ []) }))

-- `GetAll`
unfoldable pub get_all : BookingDb → Text → List StoredBooking
get_all db driver = filter (λ b. b.driver_id === driver) db.bookings

-- `GetByID`
unfoldable pub get_by_ids : BookingDb → Text → Text → Option StoredBooking
get_by_ids db booking driver =
    find (λ b. (b.booking_id === booking) && (b.driver_id === driver)) db.bookings

-- `UPDATE bookings SET status = … WHERE …`
abbrev pub set_status :
    BookingStatus → (StoredBooking → Bool) → List StoredBooking → List StoredBooking
set_status status where_ [] = []
set_status status where_ (b ∷ bs) =
    (if where_ b then record b { status = status } else b) ∷ set_status status where_ bs

-- The first row that an update returns.
abbrev pub updated_row :
    BookingStatus → (StoredBooking → Bool) → List StoredBooking → Option StoredBooking
updated_row status where_ bs = elim (find where_ bs) [
  | none ↦ none
  | some b ↦ some (record b { status = status })
]

-- `UpdateStatus`, whatever the status was before
unfoldable pub update_status :
    Text
    → BookingStatus
    → (StoredBooking → EventEnvelope)
    → BookingDb
    → Option StoredBooking × BookingDb
update_status booking status build db =
    let matches : StoredBooking → Bool = λ b. b.booking_id === booking in
    elim (updated_row status matches db.bookings) [
      | none ↦ (none, db)
      | some row ↦ (
        some row,
        insert_outbox (build row) (record db { bookings = set_status status matches db.bookings }),
      )
    ]

-- `Cancel`
unfoldable pub cancel_row :
    Text → Text → EventEnvelope → BookingDb → Option StoredBooking × BookingDb
cancel_row booking driver envelope db =
    let matches : StoredBooking → Bool =
      λ b. (b.booking_id === booking) && (b.driver_id === driver) in
    elim (updated_row cancelled matches db.bookings) [
      | none ↦ (none, db)
      | some row ↦ (
        some row,
        insert_outbox envelope (record db { bookings = set_status cancelled matches db.bookings }),
      )
    ]

-- `FindExpired`, with the database's time
unfoldable pub find_expired : ℕ → BookingDb → List StoredBooking
find_expired now db =
    filter
      (λ b.
        ltb b.departure_time now && (same_status b.status pending || same_status b.status approved))
      db.bookings

-- `IsEventProcessed`
unfoldable pub is_event_processed : Text → Text → BookingDb → Bool
is_event_processed event consumer db = any (λ p. (p.0 === event) && (p.1 === consumer)) db.processed

-- `MarkEventProcessed`: a row that is there already stays the only one.
unfoldable pub mark_event_processed : Text → Text → BookingDb → BookingDb
unfolding is_event_processed
mark_event_processed event consumer db =
    if is_event_processed event consumer db
    then db
    else record db { processed = (event, consumer) ∷ db.processed }
