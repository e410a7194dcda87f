-- ===== src/Orders/Step.antt =====
-- internal/orders/version.go: the steps of an order, strings with constants for the known values.
use temporal_serverless_rain.Base.{String, str_eq, if◌then◌else◌}

abbrev pub Step : Type 0
Step = String

abbrev pub received : Step
received = "Received"

abbrev pub fraud_check : Step
fraud_check = "Fraud check"

abbrev pub payment : Step
payment = "Payment"

abbrev pub loyalty : Step
loyalty = "Loyalty accrual"

abbrev pub prep : Step
prep = "Prep"

abbrev pub mobile_dispatch : Step
mobile_dispatch = "Mobile pickup dispatch"

abbrev pub drive_thru : Step
drive_thru = "Drive-thru handoff"

abbrev pub handoff : Step
handoff = "Handoff"

-- The Activity type that a step runs as.
pub activity_name : Step → String
activity_name s =
    if str_eq s received
    then "ReceiveOrder"
    else if str_eq s fraud_check
    then "ScreenForFraud"
    else if str_eq s payment
    then "ChargePayment"
    else if str_eq s loyalty
    then "AccrueLoyalty"
    else if str_eq s prep
    then "PrepareOrder"
    else if str_eq s mobile_dispatch
    then "DispatchMobilePickup"
    else if str_eq s drive_thru
    then "HandOffAtDriveThru"
    else if str_eq s handoff
    then "HandOffToCustomer"
    else "PerformStep"
