-- ===== src/ConflictDetection/Endpoints.antt =====
-- conflict-detection-service/src/infrastructure/http/routes: the requests that the frontend and
-- the routes service make. The section's function is how the framework reads a time.
use mathlib.Core.Option
use traffic_service.ConflictDetection.Tables.{Reservation}
use traffic_service.ConflictDetection.Service.{UtilizationWindow, segment_utilization}
use traffic_service.Base.Sets.{get_item}
use traffic_service.Api.Routes.{SegmentUtilization, SegmentWindow}
use traffic_service.Base.{◌or_else◌, bind_some, Text, ℕ, Option, some, List, [], ◌∷◌}

-- The windows of a body; a time that cannot be read refuses the whole request.
module _ (read_time : Text → Option ℕ) where
  unfoldable pub read_windows : List SegmentWindow → Option (List UtilizationWindow)
  read_windows [] = some []
  read_windows (w ∷ ws) = bind_some (read_time w.window_start) (λ from.
      bind_some (read_time w.window_end) (λ until. bind_some (read_windows ws) (λ rest.
        some
          (record { segment_id = w.segment_id; window_start = from; window_end = until } ∷ rest))))

-- The items of the response: `counts.get(s.segment_id, 0)` for each window.
abbrev pub utilization_items : List (Text × ℕ) → List UtilizationWindow → List SegmentUtilization
utilization_items counts [] = []
utilization_items counts (w ∷ ws) =
    record {
      segment_id = w.segment_id;
      active_reservations = get_item counts w.segment_id or_else 0;
    }
    ∷ utilization_items counts ws

-- `utilization`, POST /utilization
unfoldable pub utilization :
    (Text → Option ℕ) → List Reservation → List SegmentWindow → Option (List SegmentUtilization)
unfolding read_windows
utilization read_time reservations body =
    Option.map (λ windows. utilization_items (segment_utilization reservations windows) windows)
      (read_windows read_time body)
