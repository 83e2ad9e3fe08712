-- ===== src/MqttClient/Handle.antt =====
-- src/services/mqtt_client: `MqttClientHandle` and `required_subscriptions`. `Broker` says how each
-- command fares; the commands that a handle sends are returned with the result, in their order.
use place_net_hamlet.Common.{List, [], ◌∷◌, Result, ok, err, Text, utf8}
use place_net_hamlet.MqttClient.Types.{
  at_least_once, TopicSubscription, MqttCommand, subscribe, Broker,
}

-- `subscribe_all`: in order, up to the first error.
unfoldable pub subscribe_all :
    Broker → List TopicSubscription → List MqttCommand × Result Text (Unit {0})
subscribe_all broker [] = ([], ok tt)
subscribe_all broker (sub ∷ subs) =
    let command = subscribe sub.topic sub.qos in
    let (sent, rest) = subscribe_all broker subs in
    elim (broker command) [ ok _ ↦ (command ∷ sent, rest) | err e ↦ (command ∷ [], err e) ]

unfoldable pub required_subscriptions : List TopicSubscription
required_subscriptions =
    record { topic = utf8 "registration"; qos = at_least_once }
    ∷ record { topic = utf8 "key-bridge"; qos = at_least_once }
    ∷ []
