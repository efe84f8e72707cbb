-- ===== src/Websocket/Tests.antt =====
-- The theorems on the in-process provider at one socket and one topic.
use orijs.Common.{ℕ, ◌≡◌, refl, true, none, some, List, [], ◌∷◌}
use orijs.JsMap.{get, contains}
use orijs.Websocket.{Text, Provider, validate_socket_id, is_in_class, is_hex}
use orijs.Websocket.Indices.{related}
use orijs.Websocket.Subscriptions.{
  Call, new, Agrees, subscribing, unsubscribing, disconnecting, starting, apply,
}
use orijs.Websocket.Contract.{promised, apply-promised}

-- 00000000-0000-4000-8000-000000000000
abbrev socket : Text
socket =
    48 ∷ 48 ∷ 48 ∷ 48 ∷ 48 ∷ 48 ∷ 48 ∷ 48 ∷ 45 ∷ 48 ∷ 48 ∷ 48 ∷ 48 ∷ 45 ∷ 52 ∷ 48 ∷ 48 ∷ 48 ∷ 45
    ∷ 56 ∷ 48 ∷ 48 ∷ 48 ∷ 45 ∷ 48 ∷ 48 ∷ 48 ∷ 48 ∷ 48 ∷ 48 ∷ 48 ∷ 48 ∷ 48 ∷ 48 ∷ 48 ∷ 48 ∷ []

abbrev topic : Text
topic = 114 ∷ 58 ∷ 49 ∷ []

abbrev calls : List (Call ℕ)
calls = starting ∷ subscribing socket topic ∷ unsubscribing socket topic ∷ disconnecting socket ∷ []

fresh-Agrees : Agrees (new {M = ℕ})
unfolding new get contains
fresh-Agrees = record { indices = λ s t. refl; connected = λ s. refl }

apply-promised_example :
    related topic socket (apply (subscribing socket topic) (new {M = ℕ})).local_subscriptions
    ≡ promised {M = ℕ}
        (new {M = ℕ}).started
        (subscribing socket topic)
        socket
        topic
        (related topic socket (new {M = ℕ}).local_subscriptions)
apply-promised_example = apply-promised (subscribing socket topic) new socket topic fresh-Agrees

socket-is_valid : validate_socket_id socket ≡ none
unfolding validate_socket_id is_in_class is_hex
socket-is_valid = refl

abbrev serving : Provider ℕ
serving = record {
  server = some ((topic, 1) ∷ []);
  started = true;
  local_subscriptions = [];
  socket_topics = [];
  connected_sockets = [];
}
