-- ===== src/Middleware/Command/Session.antt =====
-- pkg/plugins/middleware/command/plugin.go and internal/domain/service/conversation/service.go: the command
-- `/new` and the conversation that the chat is in after it.
use whiteagent.Common.{
  Bool, true, false, not, ◌||◌, Option, none, some, List, ◌∷◌, Text, codes, text_eq, has_prefix,
  fields, if◌then◌else◌, load, ◌≡◌, ◌≢◌, refl, sym, ap, ◌∙◌,
}
use whiteagent.Conversation.{
  Service, MessageRow, get_last_conversation_id, resolve_conversation, reset_conversation,
}
use whiteagent.Conversation.Resolve.{resolve_conversation-Held}
use whiteagent.Conversation.Mirror.{IsMirrored}
use whiteagent.Conversation.Maps.{reset_conversation_lem, resolve_conversation-IsMirrored}
use whiteagent.Middleware.{user_role, Message, Handler}
use whiteagent.Middleware.Command.{
  Given, Lookup, is_user, chat_message, publish_reply, reset_and_reply, new_session, by_words, wrap,
}

module _ {W : Type 0} (given : Given W) (lookup : Lookup) (msg : Message) where
  wrap-new_session :
      (next : Handler (Service × W)) (args : List Text) (st : Service × W)
      → msg.role ≡ user_role
      → has_prefix msg.content (codes "/") ≡ true
      → fields msg.content ≡ codes "/new" ∷ args
      → wrap given lookup next msg st ≡ new_session given lookup msg st
  unfolding wrap by_words text_eq
  wrap-new_session next args st user slash words =
      let inner = by_words given lookup next (fields msg.content) msg st in
      ap (λ b. if not b || not (has_prefix msg.content (codes "/")) then next msg st else inner)
        (ap is_user user)
      ∙ ap (λ b. if not true || not b then next msg st else inner) slash
      ∙ ap (λ ws. by_words given lookup next ws msg st) words
      ∙ rw slash_new refl
    where
      slash_new : has_prefix (codes "/new") (codes "/") ≡ true
      slash_new = unfold has_prefix in refl

  reset_and_reply-service :
      (o : Option Text) (s : Service) (w : W) (c : Text)
      → o ≡ some c
      → (reset_and_reply given msg (o, s) w).1.0 ≡ reset_conversation given.name c s
  unfolding reset_and_reply publish_reply
  reset_and_reply-service none s w c h = cc
  reset_and_reply-service (some b) s w c h =
      ap (λ o. reset_conversation given.name o s) (some-injective h)
    where
      some-injective : {b c : Text} → ◌≡◌ {A = Option Text} (some b) (some c) → b ≡ c
      some-injective e = cc

-- `/new` resets the conversation that the chat is resolved to.
new_session-service :
    {W : Type 0} (given : Given W) (lookup : Lookup) (msg : Message) (s : Service) (w : W)
    (c : Text)
    → (resolve_conversation given.name lookup.rows lookup.fails (chat_message msg) s).0 ≡ some c
    → (new_session given lookup msg (s, w)).1.0
      ≡ reset_conversation given.name c
          (resolve_conversation given.name lookup.rows lookup.fails (chat_message msg) s).1
unfolding new_session
new_session-service given lookup msg s w c h = reset_and_reply-service given lookup msg _ _ w c h

-- After `/new` of a user the chat is in a new conversation: a later message of it is resolved, without a
-- lookup, to another conversation than `/new` itself was, and the other chats stay in theirs. The handler
-- within is not called. The maps are mirrored, the lookup of `/new` does not fail, and the identifiers that
-- are next belong to no chat, nor does the conversation of the chat's last message, if the chat is not in
-- the cache.
pub wrap-resolve_conversation :
    {W : Type 0} (given : Given W) (rows : List MessageRow) (next : Handler (Service × W))
    (msg : Message) (args : List Text) (s : Service) (w : W)
    → msg.role ≡ user_role
    → has_prefix msg.content (codes "/") ≡ true
    → fields msg.content ≡ codes "/new" ∷ args
    → IsMirrored s
    → load (given.name s.serial) s.reverse ≡ none
    → (load msg.chat s.cache ≡ none
        → load (get_last_conversation_id rows (chat_message msg)) s.reverse ≡ none)
    → (let s1 = (resolve_conversation given.name rows false (chat_message msg) s).1 in
        load (given.name s1.serial) s1.reverse ≡ none)
    → let lookup : Lookup = record { rows = rows; fails = false } in
      let (before, s1) = resolve_conversation given.name rows false (chat_message msg) s in
      let (sent, (s2, w')) = wrap given lookup next msg (s, w) in
      ((later : List MessageRow) (fails : Bool)
        → (resolve_conversation given.name later fails (chat_message msg) s2).0
          ≡ some (given.name s1.serial))
      × (before ≢ some (given.name s1.serial))
      × ((k : Text) → k ≢ msg.chat → load k s2.cache ≡ load k s.cache)
      × (((other : Handler (Service × W)) → wrap given lookup other msg (s, w) ≡ (sent, (s2, w'))))
wrap-resolve_conversation given rows next msg args s w user slash words m fresh unheld fresh' =
    let lookup : Lookup = record { rows = rows; fails = false } in
    let chat = chat_message msg in
    let s1 = (resolve_conversation given.name rows false chat s).1 in
    let (c, before, held, others) = resolve_conversation-Held given.name rows chat s in
    let m1 = resolve_conversation-IsMirrored given.name rows false chat s m fresh unheld in
    let ran = wrap-new_session given lookup msg next args (s, w) user slash words in
    let after : (wrap given lookup next msg (s, w)).1.0 ≡ reset_conversation given.name c s1 =
      ap (λ p. p.1.0) ran ∙ new_session-service given lookup msg s w c before in
    let kept = (reset_conversation_lem given.name rows false chat c s1 m1 held).1 in
    (
      λ later fails.
          ap (λ x. (resolve_conversation given.name later fails chat x).0) after
          ∙ (reset_conversation_lem given.name later fails chat c s1 m1 held).0,
      λ same. absurd (cc (m1.to_reverse msg.chat c held, fresh', sym before ∙ same)),
      λ k ne. ap (λ x. load k x.cache) after ∙ kept k ne ∙ others k ne,
      λ other. wrap-new_session given lookup msg other args (s, w) user slash words ∙ sym ran,
    )
