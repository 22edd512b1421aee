-- ===== src/Middleware/Tests.antt =====
-- Tests and examples for pkg/plugins/middleware, in a world that is a list of the contents given on.
use whiteagent.Common.{
  ◌+◌, Bool, true, false, Option, none, some, List, [], ◌∷◌, Text, codes, text_eq, has_prefix,
  fields, load, store, ◌≡◌, ◌≢◌, refl,
}
use whiteagent.Conversation.{
  Service, MessageRow, get_last_conversation_id, store_mapping, resolve_conversation,
}
use whiteagent.Conversation.Mirror.{IsMirrored}
use whiteagent.Conversation.Reach.{empty_service, fresh, Reach-IsMirrored}
use whiteagent.Middleware.{user_role, Attachment, Message, Handler}
use whiteagent.Middleware.Command.{Given, Lookup, chat_message, wrap}
use whiteagent.Middleware.Command.Session.{wrap-resolve_conversation}
use whiteagent.Middleware.Command.Limits.{}
use whiteagent.Middleware.Whisper.{
  wrap_whisper, left_over, spoken_texts, lines_of, outcomes, world_after, wrap_whisper_lem,
}

abbrev World : Type 0
World = List Text

abbrev plugin : Given World
plugin = record {
  name = λ n. (48 + n) ∷ [];
  publish = λ msg w. (true, msg.content ∷ w);
  errors = none;
  stamp = λ n. [];
}

abbrev agent : Handler (Service × World)
agent msg (s, w) = (true, (s, msg.content ∷ w))

abbrev hello : Message
hello = record {
  tenant = codes "t";
  chat = codes "a";
  user = codes "u";
  role = user_role;
  content = codes "/";
  is_group = false;
  attachments = [];
  details = [];
}

abbrev renew : Message
renew = record hello { content = codes "/new now" }

empty_service-IsMirrored : IsMirrored empty_service
empty_service-IsMirrored = Reach-IsMirrored plugin.name empty_service fresh

abbrev lookup : Lookup
lookup = record { rows = []; fails = false }

wrap-resolve_conversation_example :
    let (before, s1) =
      resolve_conversation plugin.name [] false (chat_message renew) empty_service in
    let (sent, (s2, w')) = wrap plugin lookup agent renew (empty_service, []) in
    ((later : List MessageRow) (fails : Bool)
      → (resolve_conversation plugin.name later fails (chat_message renew) s2).0
        ≡ some (plugin.name s1.serial))
    × (before ≢ some (plugin.name s1.serial))
    × ((k : Text) → k ≢ renew.chat → load k s2.cache ≡ load k empty_service.cache)
    × ((other : Handler (Service × World))
        → wrap plugin lookup other renew (empty_service, []) ≡ (sent, (s2, w')))
unfolding has_prefix fields load resolve_conversation get_last_conversation_id store_mapping store
    text_eq whiteagent.Store.find_row
wrap-resolve_conversation_example =
    wrap-resolve_conversation plugin [] agent renew (codes "now" ∷ []) empty_service [] refl refl
      refl empty_service-IsMirrored refl (λ out. refl) refl

abbrev voice : Attachment
voice = record { kind = codes "voice"; path = codes "/v"; filename = [] }

abbrev photo : Attachment
photo = record { kind = codes "photo"; path = codes "/p"; filename = [] }

abbrev hear : Attachment → World → Option Text × World
hear a w = (some (codes "hi"), a.path ∷ w)

abbrev spoken : Message
spoken = record hello { content = codes "so"; attachments = voice ∷ photo ∷ voice ∷ [] }

abbrev speaker : Handler World
speaker msg w = (true, msg.content ∷ w)

wrap_whisper_lem_example :
    let os = outcomes hear spoken.attachments [] in
    wrap_whisper hear speaker spoken []
    ≡ speaker
        (record spoken {
          attachments = left_over os;
          content = lines_of (spoken.content ∷ spoken_texts os);
        })
        (world_after hear spoken.attachments [])
wrap_whisper_lem_example = wrap_whisper_lem hear speaker spoken []

spoken_result :
    wrap_whisper hear speaker spoken [] ≡ (true, codes "so\nhi\nhi" ∷ codes "/v" ∷ codes "/v" ∷ [])
unfolding wrap_whisper text_eq
spoken_result = refl
