-- ===== src/BookRoute.antt =====
-- services/bff/traffic-frontend/src/pages/BookRoute: planning a trip. The page's choices stand in
-- the address, in the parameters of the query.
pub mod Params
pub mod Departure
pub mod Selection
pub mod Windows
pub mod Card
pub mod Places
pub mod Times
pub mod Chosen
pub mod Utilization
pub mod Booked
