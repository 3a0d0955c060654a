-- ===== src/Delivery/Dispatch.antt =====
-- internal/delivery/delivery.go: the choice of a sender and the label of a target. The senders are
-- functions in the dispatcher.
use kagents.Prelude.{String, Option, none, some, ◌==◌, ◌<>◌, Dict, lookup, join, if◌then◌else◌}
use kagents.Result.{Result, err, other}
use kagents.Fmt.{quote}
use kagents.Api.Spec.{DeliveryTarget}
use kagents.Api.Resources.{AgentTeam}

abbrev pub Sender : Type 0 → Type 0
Sender W = W → DeliveryTarget → AgentTeam → Result (Unit {0}) × W

abbrev pub not_implemented_text : String
not_implemented_text = "delivery type not yet implemented"

-- ErrNotImplemented, wrapped with the type.
unfoldable pub not_implemented : {W : Type 0} → String → Sender W
not_implemented type w target team = (err (other (not_implemented_text <> ": " <> type)), w)

dispatch : {W : Type 0} → Option (Sender W) → Sender W
dispatch none w target team = (err (other (not_implemented_text <> ": " <> quote target.type)), w)
dispatch (some sender) w target team = sender w target team

-- Dispatcher.Send
unfoldable pub send : {W : Type 0} → Dict (Sender W) → Sender W
unfolding dispatch
send senders w target team = dispatch (lookup target.type senders) w target team

unfoldable pub target_label : DeliveryTarget → String
target_label t =
    if t.type == "webhook"
    then t.url
    else if t.type == "slack"
    then t.channel
    else if t.type == "email"
    then join t.to ", "
    else if t.type == "google-drive"
    then t.folder
    else ""
