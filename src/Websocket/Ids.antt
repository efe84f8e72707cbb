-- ===== src/Websocket/Ids.antt =====
-- Which topics a socket's identifier makes.
use orijs.Common.{
  ℕ, ◌≡◌, refl, Bool, true, false, ◌&&◌, none, some, List, [], ◌∷◌, ◌++◌, arith, length,
  if◌then◌else◌,
}
use orijs.Websocket.{
  Text, WsError, CharClass, hex, dash, four, variant, is_hex, is_in_class, is_topic_char, matches,
  uuid_v4, all_chars, validate_topic, validate_socket_id, socket_topic, Provider, send, publish,
  socket_id_format,
}

class_is_topic_char : (k : CharClass) (c : ℕ) → is_in_class k c ≡ true → is_topic_char c ≡ true
unfolding is_in_class is_hex is_topic_char
class_is_topic_char hex c h = ground arith
class_is_topic_char dash c h = ground arith
class_is_topic_char four c h = ground arith
class_is_topic_char variant c h = ground arith

matches-all :
    (ks : List CharClass) (cs : Text)
    → matches ks cs ≡ true
    → (length cs ≡ length ks) × (all_chars is_topic_char cs ≡ true)
matches-all [] [] h = (refl, refl)
matches-all [] (c ∷ cs) h = absurd cc
matches-all (k ∷ ks) [] h = absurd cc
matches-all (k ∷ ks) (c ∷ cs) h =
    let rest = matches-all ks cs (both h).1 in
    (omega (arith, rest.0), rw (class_is_topic_char k c (both h).0) rest.1)
  where
    both :
        (is_in_class k c && matches ks cs ≡ true)
        → (is_in_class k c ≡ true) × (matches ks cs ≡ true)
    both h = (ground arith, ground arith)

none_if : (b : Bool) (e : WsError) → (if b then none else some e) ≡ none → b ≡ true
none_if true e h = refl
none_if false e h = absurd cc

uuid_of_valid : (s : Text) → validate_socket_id s ≡ none → matches uuid_v4 s ≡ true
unfolding validate_socket_id
uuid_of_valid [] h = absurd cc
uuid_of_valid (c ∷ cs) h = none_if (matches uuid_v4 (c ∷ cs)) socket_id_format h

-- The topic of a socket's own messages is a valid one whenever the socket's identifier is.
socket_topic_is_valid :
    (socket : Text) → validate_socket_id socket ≡ none → validate_topic (socket_topic socket) ≡ none
unfolding validate_topic is_topic_char
socket_topic_is_valid socket h = ground (arith, facts.0, facts.1)
  where
    facts : (length socket ≡ 36) × (all_chars is_topic_char socket ≡ true)
    facts = matches-all uuid_v4 socket (uuid_of_valid socket h)

-- A message sent to a valid identifier, with a server there, is published on that socket's topic,
-- after everything published before, and nothing else changes or is reported.
send_reaches :
    {M : Type 0} (socket : Text) (message : M) (p : Provider M) (server : List (Text × M))
    → validate_socket_id socket ≡ none
    → p.server ≡ some server
    → send socket message p
      ≡ (none, record p { server = some (server ++ (socket_topic socket, message) ∷ []) })
unfolding send publish
send_reaches socket message p server h e = rw (send, h, publish, socket_topic_is_valid socket h, e)
