-- ===== src/RouteSafety/Veto.antt =====
-- A veto of the USB lifecycle that comes while USB is being taken is not lost.
use s3_hidbot.RouteSafety.Published.{Published}
