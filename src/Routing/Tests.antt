-- ===== src/Routing/Tests.antt =====
-- Runs of src/intake/local_console/receiver/route_decision.py at concrete inputs.
use intake.Prelude.{some, []}
use intake.Receiver.Model.{Receiver, online}
use intake.Routing.{RouteService, google_drive_fallback_future}

abbrev receiver : Receiver
receiver = record { status = online; sessions = []; files = []; disk = [] }

abbrev service : RouteService
service = record {
  receiver_service = some receiver;
  fallback_provider = some google_drive_fallback_future;
}
