-- ===== src/Conversation/Resolve.antt =====
-- internal/domain/service/conversation/service.go: `ResolveConversation`, when the lookup does not fail.
use whiteagent.Common.{
  ℕ, false, Option, none, some, List, [], ◌∷◌, Text, load, load-store, load-store_other, ◌≡◌, ◌≢◌,
  refl, ap, ◌∙◌,
}
use whiteagent.Conversation.{
  Service, ChatMessage, MessageRow, get_last_conversation_id, store_mapping, generate, last_or_new,
  by_cache, resolve_conversation, counted,
}

module _ (name : ℕ → Text) (rows : List MessageRow) (msg : ChatMessage) where
  -- What a resolution without an error leaves.
  abbrev pub Held : Service → Option Text × Service → Type 0
  Held s (o, s1) =
      (c : Text) × (o ≡ some c)
      × (load msg.chat s1.cache ≡ some c)
      × ((k : Text) → k ≢ msg.chat → load k s1.cache ≡ load k s.cache)

  stored-Held :
      (c : Text) (s s' : Service)
      → s'.cache ≡ s.cache
      → Held s (some c, store_mapping msg.chat c msg.tenant s')
  unfolding store_mapping
  stored-Held c s s' same = (
    c,
    refl,
    load-store msg.chat c s'.cache,
    λ k ne. load-store_other k msg.chat c s'.cache ne ∙ ap (load k) same,
  )

  last_or_new-Held : (c : Text) (s : Service) → Held s (last_or_new name c msg s)
  unfolding last_or_new generate
  last_or_new-Held [] s = stored-Held (name s.serial) s (counted name s) refl
  last_or_new-Held (b ∷ c) s = stored-Held (b ∷ c) s s refl

  by_cache-Held :
      (hit : Option Text) (s : Service)
      → load msg.chat s.cache ≡ hit
      → Held s (by_cache name hit rows false msg s)
  unfolding by_cache
  by_cache-Held (some c) s h = (c, refl, h, λ k ne. refl)
  by_cache-Held none s h = last_or_new-Held (get_last_conversation_id rows msg) s

  pub resolve_conversation-Held :
      (s : Service) → Held s (resolve_conversation name rows false msg s)
  unfolding resolve_conversation
  resolve_conversation-Held s = by_cache-Held (load msg.chat s.cache) s refl
