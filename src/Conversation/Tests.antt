-- ===== src/Conversation/Tests.antt =====
-- internal/domain/service/conversation/service.go on a chat in one conversation, and one in none.
use whiteagent.Common.{
  ℕ, ◌+◌, false, store, erase, none, some, List, [], ◌∷◌, Text, codes, text_eq, ◌≡◌, ◌≢◌, refl,
  Bool-cases, inl, inr, load, arith,
}
use whiteagent.Store.{find_row}
use whiteagent.Conversation.{
  store_mapping, Service, ChatMessage, MessageRow, get_last_conversation_id, resolve_conversation,
  switch_conversation, reset_conversation,
}
use whiteagent.Conversation.Mirror.{IsMirrored}
use whiteagent.Conversation.Maps.{reset_conversation_lem}
use whiteagent.Conversation.Reach.{
  empty_service, Reach, fresh, called, resolves, switches, resets, Reach-IsMirrored,
}

abbrev test_name : ℕ → Text
test_name n = (48 + n) ∷ []

abbrev chat_a : ChatMessage
chat_a = record { tenant = codes "acme"; chat = codes "a" }

abbrev chat_b : ChatMessage
chat_b = record { tenant = codes "acme"; chat = codes "b" }

abbrev rows : List MessageRow
rows = record { tenant = codes "acme"; chat = codes "a"; conversation = codes "c" } ∷ []

-- The service once the first chat was resolved.
abbrev service : Service
service = (resolve_conversation test_name rows false chat_a empty_service).1

-- What a run of the service computes with.
test_service : Unit {0}
unfolding load store store_mapping erase text_eq find_row get_last_conversation_id
    resolve_conversation switch_conversation reset_conversation
test_service = tt

fresh_name : load (test_name service.serial) service.reverse ≡ none
unfolding test_service
fresh_name = refl

in_chat_a : Reach test_name service
unfolding load
in_chat_a = called fresh (resolves rows false chat_a refl (λ out. refl))

service-IsMirrored : IsMirrored service
service-IsMirrored = Reach-IsMirrored test_name service in_chat_a

load_one : (k j v w : Text) → load k ((j, v) ∷ []) ≡ some w → v ≡ w
unfolding load
load_one k j v w h = elim (Bool-cases (text_eq k j)) [
  | inl hit ↦ ground (arith, hit, h)
  | inr miss ↦ absurd (ground (arith, miss, h))
]

c_not_c2 : codes "c" ≢ codes "c2"
c_not_c2 e = cc

not_there : (k : Text) → load k service.cache ≡ some (codes "c2") → k ≡ codes "b"
unfolding test_service
not_there k h = absurd (c_not_c2 (load_one k (codes "a") (codes "c") (codes "c2") h))

-- The second chat is switched to a conversation, and the first one's is reset.
abbrev switched : Service
switched = switch_conversation chat_b (codes "c2") service

fresh_name_2 : load (test_name switched.serial) switched.reverse ≡ none
unfolding test_service
fresh_name_2 = refl

Reach-IsMirrored_example : IsMirrored (reset_conversation test_name (codes "c") switched)
Reach-IsMirrored_example =
    Reach-IsMirrored test_name (reset_conversation test_name (codes "c") switched) (
      called (called in_chat_a (switches chat_b (codes "c2") not_there))
        (resets (codes "c") fresh_name_2))

in_c : load (codes "a") service.cache ≡ some (codes "c")
unfolding test_service
in_c = refl

reset_conversation_lem_example :
    ((resolve_conversation test_name rows false chat_a
        (reset_conversation test_name (codes "c") service)).0
      ≡ some (test_name service.serial))
    × ((k : Text)
        → k ≢ codes "a"
        → load k (reset_conversation test_name (codes "c") service).cache ≡ load k service.cache)
reset_conversation_lem_example =
    reset_conversation_lem test_name rows false chat_a (codes "c") service service-IsMirrored in_c
