-- ===== src/Conversation/Maps.antt =====
-- internal/domain/service/conversation/service.go: `ResolveConversation`,
-- `SwitchConversation` and `ResetConversation`, and the three maps.
use whiteagent.Common.{
  text_cases, ℕ, suc, Bool, true, false, Option-cases, inl, inr, Option, none, some, List, [], ◌∷◌,
  Text, ◌≡◌, ◌≢◌, refl, sym, ◌∙◌, ap, subst, load, erase, load-store, load-store_other, load-erase,
  load-erase_other,
}
use whiteagent.Conversation.{
  Service, ChatMessage, MessageRow, get_last_conversation_id, store_mapping, drop_old,
  switch_conversation, generate, last_or_new, by_cache, resolve_conversation, renewed, reset_known,
  reset_conversation, counted,
}
use whiteagent.Conversation.Mirror.{
  IsMirrored, store_mapping-IsMirrored, outside-IsMirroredBut, removed-IsMirroredBut,
}

count-IsMirrored : (name : ℕ → Text) (s : Service) → IsMirrored s → IsMirrored (counted name s)
count-IsMirrored name s m = record {
  to_reverse = m.to_reverse;
  to_cache = m.to_cache;
  has_tenant = m.has_tenant;
}

last_or_new-IsMirrored :
    (name : ℕ → Text) (conv : Text) (msg : ChatMessage) (s : Service)
    → IsMirrored s
    → load (name s.serial) s.reverse ≡ none
    → load msg.chat s.cache ≡ none
    → load conv s.reverse ≡ none
    → IsMirrored (last_or_new name conv msg s).1
unfolding last_or_new generate
last_or_new-IsMirrored name [] msg s m fresh out unheld =
    store_mapping-IsMirrored msg.chat (name s.serial) msg.tenant (counted name s)
      (outside-IsMirroredBut msg.chat (counted name s) (count-IsMirrored name s m) out) fresh
last_or_new-IsMirrored name (c ∷ conv) msg s m fresh out unheld =
    store_mapping-IsMirrored msg.chat (c ∷ conv) msg.tenant s
      (outside-IsMirroredBut msg.chat s m out) unheld

by_cache-IsMirrored :
    (name : ℕ → Text) (hit : Option Text) (rows : List MessageRow) (fails : Bool)
    (msg : ChatMessage) (s : Service)
    → IsMirrored s
    → load (name s.serial) s.reverse ≡ none
    → (load msg.chat s.cache ≡ none → load (get_last_conversation_id rows msg) s.reverse ≡ none)
    → load msg.chat s.cache ≡ hit
    → IsMirrored (by_cache name hit rows fails msg s).1
unfolding by_cache
by_cache-IsMirrored name (some conv) rows fails msg s m fresh unheld h = m
by_cache-IsMirrored name none rows true msg s m fresh unheld h = m
by_cache-IsMirrored name none rows false msg s m fresh unheld h =
    last_or_new-IsMirrored name (get_last_conversation_id rows msg) msg s m fresh h (unheld h)

-- `ResolveConversation` keeps the maps mirrored, whether it finds the chat in the cache, in the store or
-- nowhere, or fails. The identifier that is next belongs to no chat, and neither does the conversation of
-- the chat's last message, if the chat is not in the cache.
pub resolve_conversation-IsMirrored :
    (name : ℕ → Text) (rows : List MessageRow) (fails : Bool) (msg : ChatMessage) (s : Service)
    → IsMirrored s
    → load (name s.serial) s.reverse ≡ none
    → (load msg.chat s.cache ≡ none → load (get_last_conversation_id rows msg) s.reverse ≡ none)
    → IsMirrored (resolve_conversation name rows fails msg s).1
unfolding resolve_conversation
resolve_conversation-IsMirrored name rows fails msg s m fresh unheld =
    by_cache-IsMirrored name (load msg.chat s.cache) rows fails msg s m fresh unheld refl

erased_unheld :
    (conv old : Text) (s : Service)
    → (conv ≢ old → load conv s.reverse ≡ none)
    → load conv (erase old s.reverse) ≡ none
erased_unheld conv old s h = elim (text_cases conv old) [
  | inl same ↦ ap (λ x. load x (erase old s.reverse)) same ∙ load-erase old s.reverse
  | inr other ↦ load-erase_other conv old s.reverse other ∙ h other
]

-- A conversation that only one chat could be in, and that this chat is not in, is no chat's.
only_one :
    (key conv : Text) (s : Service)
    → IsMirrored s
    → ((k : Text) → load k s.cache ≡ some conv → k ≡ key)
    → load key s.cache ≢ some conv
    → load conv s.reverse ≡ none
only_one key conv s m own out = elim (Option-cases (load conv s.reverse)) [
  | inl free ↦ free
  | inr (k, held) ↦
      let back = m.to_cache k conv held in
      absurd (out (ap (λ x. load x s.cache) (sym (own k back)) ∙ back))
]

-- `SwitchConversation` keeps the maps mirrored, if no other chat is in the conversation that it switches
-- to.
pub switch_conversation-IsMirrored :
    (msg : ChatMessage) (target : Text) (s : Service)
    → IsMirrored s
    → ((k : Text) → load k s.cache ≡ some target → k ≡ msg.chat)
    → IsMirrored (switch_conversation msg target s)
unfolding switch_conversation
switch_conversation-IsMirrored msg target s m own = elim (Option-cases (load msg.chat s.cache)) [
  | inl out ↦
      subst (λ o. IsMirrored (store_mapping msg.chat target msg.tenant (drop_old o s))) (sym out)
        (store_mapping-IsMirrored msg.chat target msg.tenant s
          (outside-IsMirroredBut msg.chat s m out)
          (only_one msg.chat target s m own (λ e. cc (sym out ∙ e))))
  | inr (old, held) ↦
      subst (λ o. IsMirrored (store_mapping msg.chat target msg.tenant (drop_old o s))) (sym held)
        (store_mapping-IsMirrored msg.chat target msg.tenant (drop_old (some old) s)
          (removed-IsMirroredBut msg.chat old s s.cache s.serial m held (λ k other. refl))
          (erased_unheld target old s
            (λ other. only_one msg.chat target s m own (λ e. other (cc (sym e ∙ held))))))
]

renewed-IsMirrored :
    (name : ℕ → Text) (key conv tenant : Text) (s : Service)
    → IsMirrored s
    → load (name s.serial) s.reverse ≡ none
    → load key s.cache ≡ some conv
    → IsMirrored (renewed name key conv tenant s)
unfolding renewed
renewed-IsMirrored name key conv tenant s m fresh held =
    store_mapping-IsMirrored key (name s.serial) tenant _
      (removed-IsMirroredBut key conv s (erase key s.cache) (suc s.serial) m held
        (λ k other. load-erase_other k key s.cache other))
      (erased_unheld (name s.serial) conv s (λ other. fresh))

reset_known-IsMirrored :
    (name : ℕ → Text) (key tenant : Option Text) (conv : Text) (s : Service)
    → IsMirrored s
    → load (name s.serial) s.reverse ≡ none
    → load conv s.reverse ≡ key
    → IsMirrored (reset_known name key tenant conv s)
unfolding reset_known
reset_known-IsMirrored name none tenant conv s m fresh h = m
reset_known-IsMirrored name (some key) none conv s m fresh h = m
reset_known-IsMirrored name (some key) (some tenant) conv s m fresh h =
    renewed-IsMirrored name key conv tenant s m fresh (m.to_cache key conv h)

-- `ResetConversation` keeps the maps mirrored, for a conversation that is some chat's and for one that is
-- not, if the identifier that is next is no chat's.
pub reset_conversation-IsMirrored :
    (name : ℕ → Text) (conv : Text) (s : Service)
    → IsMirrored s
    → load (name s.serial) s.reverse ≡ none
    → IsMirrored (reset_conversation name conv s)
unfolding reset_conversation
reset_conversation-IsMirrored name conv s m fresh =
    reset_known-IsMirrored name (load conv s.reverse) (load conv s.tenants) conv s m fresh refl

-- Once the conversation of a chat is reset, the chat is resolved to the new one, without a lookup in the
-- store, and every other chat is in the cache with the conversation that it was in.
pub reset_conversation_lem :
    (name : ℕ → Text) (rows : List MessageRow) (fails : Bool) (msg : ChatMessage) (conv : Text)
    (s : Service)
    → IsMirrored s
    → load msg.chat s.cache ≡ some conv
    → ((resolve_conversation name rows fails msg (reset_conversation name conv s)).0
        ≡ some (name s.serial))
      × ((k : Text) → k ≢ msg.chat → load k (reset_conversation name conv s).cache ≡ load k s.cache)
unfolding reset_conversation reset_known renewed resolve_conversation by_cache store_mapping
reset_conversation_lem name rows fails msg conv s m held =
    let (tenant, p) = m.has_tenant msg.chat conv held in
    let known = m.to_reverse msg.chat conv held in
    let after : reset_conversation name conv s ≡ renewed name msg.chat conv tenant s =
      ap (λ o. reset_known name o (load conv s.tenants) conv s) known
      ∙ ap (λ o. reset_known name (some msg.chat) o conv s) p in
    (
      ap (λ x. (resolve_conversation name rows fails msg x).0) after
          ∙ ap (λ o. (by_cache name o rows fails msg (renewed name msg.chat conv tenant s)).0)
              (load-store msg.chat (name s.serial) (erase msg.chat s.cache)),
      λ k other.
          ap (λ x. load k x.cache) after
          ∙ load-store_other k msg.chat (name s.serial) (erase msg.chat s.cache) other
          ∙ load-erase_other k msg.chat s.cache other,
    )
