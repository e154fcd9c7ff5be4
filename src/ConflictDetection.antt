-- ===== src/ConflictDetection.antt =====
-- services/conflict-detection-service: which bookings the road segments of their routes have room
-- for. Times are whole milliseconds and durations whole seconds.
pub mod Tables
pub mod Service
pub mod Capacities
pub mod Fits
pub mod Assessed
pub mod Reserved
pub mod Capacity
pub mod Consumer
pub mod Endpoints
pub mod Counts
pub mod OnMap
pub mod Handled
pub mod Delivery
pub mod Preview
pub mod Kept
