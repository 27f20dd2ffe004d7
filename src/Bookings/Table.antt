-- ===== src/Bookings/Table.antt =====
-- The tables of bookings/booking-status.constants.ts: which status may follow which, for every
-- role, and how a status is shown.
use limpeja_backend.Common.{Bool, true, false, List, [], ◌∷◌}
use limpeja_backend.Bookings.Status.{
  BookingStatus, pending, pending_payment, pending_provider_confirmation, confirmed, on_the_way,
  arrived, started, finished, canceled, expired, pending_dispute, rescheduled, rejected, no_show,
}

-- The enum `UserRole` of prisma/schema.prisma.
pub data UserRole : Type 0 where
  client provider admin system support_agent : UserRole

pub data StatusSeverity : Type 0 where
  info success warning danger neutral : StatusSeverity

-- `BOOKING_STATUS_TRANSITIONS`
abbrev pub booking_status_transitions : BookingStatus → List BookingStatus
booking_status_transitions pending = confirmed ∷ rejected ∷ canceled ∷ pending_dispute ∷ []
booking_status_transitions pending_payment =
    confirmed ∷ rejected ∷ canceled ∷ pending_dispute ∷ expired ∷ []
booking_status_transitions pending_provider_confirmation =
    confirmed ∷ rejected ∷ canceled ∷ pending_dispute ∷ []
booking_status_transitions confirmed =
    on_the_way ∷ arrived ∷ started ∷ finished ∷ canceled ∷ rescheduled ∷ pending_dispute ∷ []
booking_status_transitions on_the_way = arrived ∷ canceled ∷ pending_dispute ∷ []
booking_status_transitions arrived = started ∷ canceled ∷ pending_dispute ∷ []
booking_status_transitions started = finished ∷ canceled ∷ pending_dispute ∷ []
booking_status_transitions finished = []
booking_status_transitions canceled = []
booking_status_transitions expired = []
booking_status_transitions pending_dispute = finished ∷ canceled ∷ no_show ∷ []
booking_status_transitions rescheduled = confirmed ∷ canceled ∷ pending_dispute ∷ []
booking_status_transitions rejected = []
booking_status_transitions no_show = []

-- `BOOKING_STATUS_SEVERITY`
abbrev pub booking_status_severity : BookingStatus → StatusSeverity
booking_status_severity pending = warning
booking_status_severity pending_payment = warning
booking_status_severity pending_provider_confirmation = warning
booking_status_severity confirmed = info
booking_status_severity on_the_way = info
booking_status_severity arrived = info
booking_status_severity started = info
booking_status_severity finished = success
booking_status_severity canceled = danger
booking_status_severity expired = danger
booking_status_severity pending_dispute = warning
booking_status_severity rescheduled = neutral
booking_status_severity rejected = danger
booking_status_severity no_show = danger

-- `BOOKING_STATUS_REQUIRES_ACTION`
abbrev pub booking_status_requires_action : BookingStatus → Bool
booking_status_requires_action pending = true
booking_status_requires_action pending_payment = true
booking_status_requires_action pending_provider_confirmation = true
booking_status_requires_action confirmed = true
booking_status_requires_action on_the_way = true
booking_status_requires_action arrived = true
booking_status_requires_action started = true
booking_status_requires_action finished = false
booking_status_requires_action canceled = false
booking_status_requires_action expired = false
booking_status_requires_action pending_dispute = true
booking_status_requires_action rescheduled = true
booking_status_requires_action rejected = false
booking_status_requires_action no_show = false

abbrev pub client_transitions : BookingStatus → List BookingStatus
client_transitions pending = canceled ∷ []
client_transitions pending_payment = canceled ∷ []
client_transitions pending_provider_confirmation = canceled ∷ []
client_transitions confirmed = canceled ∷ []
client_transitions on_the_way = []
client_transitions arrived = []
client_transitions started = []
client_transitions finished = []
client_transitions canceled = []
client_transitions expired = []
client_transitions pending_dispute = canceled ∷ []
client_transitions rescheduled = canceled ∷ []
client_transitions rejected = []
client_transitions no_show = []

abbrev pub provider_transitions : BookingStatus → List BookingStatus
provider_transitions pending = confirmed ∷ rejected ∷ []
provider_transitions pending_payment = confirmed ∷ rejected ∷ []
provider_transitions pending_provider_confirmation = confirmed ∷ rejected ∷ []
provider_transitions confirmed =
    on_the_way ∷ arrived ∷ started ∷ finished ∷ canceled ∷ rescheduled ∷ []
provider_transitions on_the_way = arrived ∷ canceled ∷ []
provider_transitions arrived = started ∷ canceled ∷ []
provider_transitions started = finished ∷ canceled ∷ []
provider_transitions finished = []
provider_transitions canceled = []
provider_transitions expired = []
provider_transitions pending_dispute = finished ∷ canceled ∷ []
provider_transitions rescheduled = confirmed ∷ canceled ∷ []
provider_transitions rejected = []
provider_transitions no_show = []

-- `BOOKING_TRANSITIONS_BY_ROLE`
abbrev pub booking_transitions_by_role : UserRole → BookingStatus → List BookingStatus
booking_transitions_by_role client s = client_transitions s
booking_transitions_by_role provider s = provider_transitions s
booking_transitions_by_role admin s = booking_status_transitions s
booking_transitions_by_role system s = booking_status_transitions s
booking_transitions_by_role support_agent s = booking_status_transitions s
