-- ===== src/Protocol/MsgId.antt =====
-- MQTTProtocol_assignMsgId of src/MQTTProtocolClient.c. A client is given by its `msgID` and the ids of
-- its outbound messages; `messageIDCompare` looks at nothing else.
use paho_mqtt_c.Common.{ℕ, zero, suc, ◌+◌, Bool, true, false, List, [], ◌∷◌, Option, none, some}
use paho_mqtt_c.Common.{◌==◌, if◌then◌else◌}
pub mod Laws

abbrev pub max_msg_id : ℕ
max_msg_id = 65535

unfoldable pub next_id : ℕ → ℕ
next_id msgid = if msgid == max_msg_id then 1 else msgid + 1

-- `ListFindItem` with `messageIDCompare` finds an element.
unfoldable pub in_use : List ℕ → ℕ → Bool
in_use [] msgid = false
in_use (id ∷ ids) msgid = if id == msgid then true else in_use ids msgid

-- The while loop. `none` is a loop that has not ended within the fuel.
unfoldable pub assign_loop : ℕ → List ℕ → ℕ → ℕ → Option ℕ
assign_loop zero ids start_msgid msgid = none
assign_loop (suc fuel) ids start_msgid msgid =
    let after : Option ℕ =
      (let again = assign_loop fuel ids start_msgid (next_id msgid) in
        if next_id msgid == start_msgid then some 0 else again) in
    if in_use ids msgid then after else some msgid

-- The result and `client->msgID` after the call, by the outcome of the search.
unfoldable pub assigned : ℕ → Option ℕ → Option (ℕ × ℕ)
assigned start_msgid none = none
assigned start_msgid (some msgid) = some (msgid, if msgid == 0 then start_msgid else msgid)

unfoldable pub assign_msg_id : List ℕ → ℕ → Option (ℕ × ℕ)
assign_msg_id ids start_msgid =
    assigned start_msgid (assign_loop max_msg_id ids start_msgid (next_id start_msgid))
