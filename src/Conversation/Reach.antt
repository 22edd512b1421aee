-- ===== src/Conversation/Reach.antt =====
-- internal/domain/service/conversation/service.go: the calls of the service one after another.
use whiteagent.Common.{
  ℕ, Bool, inl, inr, none, some, List, [], Text, text_cases, load, store, load-store,
  load-store_other, ◌≡◌, ap, ◌∙◌,
}
use whiteagent.Conversation.{
  Service, ChatMessage, MessageRow, get_last_conversation_id, register_conversation,
  resolve_conversation, switch_conversation, reset_conversation,
}
use whiteagent.Conversation.Mirror.{IsMirrored}
use whiteagent.Conversation.Maps.{
  resolve_conversation-IsMirrored, switch_conversation-IsMirrored, reset_conversation-IsMirrored,
}

abbrev pub empty_service : Service
empty_service = record { cache = []; reverse = []; tenants = []; serial = 0 }

-- A call of the service, with what its callers see to: new identifiers belong to no chat, and neither does
-- the conversation that a chat that is not in the cache had last; and a chat is switched to a conversation
-- that no other chat is in.
pub data Call (name : ℕ → Text) (s : Service) : Service → Type 0 where
  resolves :
      (rows : List MessageRow) (fails : Bool) (msg : ChatMessage)
      → load (name s.serial) s.reverse ≡ none
      → (load msg.chat s.cache ≡ none → load (get_last_conversation_id rows msg) s.reverse ≡ none)
      → Call name s (resolve_conversation name rows fails msg s).1
  registers : (tenant conv : Text) → Call name s (register_conversation tenant conv s)
  switches :
      (msg : ChatMessage) (target : Text)
      → ((k : Text) → load k s.cache ≡ some target → k ≡ msg.chat)
      → Call name s (switch_conversation msg target s)
  resets :
      (conv : Text)
      → load (name s.serial) s.reverse ≡ none
      → Call name s (reset_conversation name conv s)

-- What a sequence of calls makes of a new service.
pub data Reach (name : ℕ → Text) : Service → Type 0 where
  fresh : Reach name empty_service
  called : {s t : Service} → Reach name s → Call name s t → Reach name t

empty_service-IsMirrored : IsMirrored empty_service
unfolding load
empty_service-IsMirrored = record {
  to_reverse = λ k c h. cc;
  to_cache = λ k c h. cc;
  has_tenant = λ k c h. absurd (nothing c h);
}
  where
    nothing : (c : Text) → none ≡ some c → ⊥
    nothing c h = cc

register_conversation-IsMirrored :
    (tenant conv : Text) (s : Service)
    → IsMirrored s
    → IsMirrored (register_conversation tenant conv s)
unfolding register_conversation
register_conversation-IsMirrored tenant conv s m = record {
  to_reverse = m.to_reverse;
  to_cache = m.to_cache;
  has_tenant = λ k c h. elim (text_cases c conv) [
    | inl same ↦ (
      tenant,
      ap (λ x. load x (store conv tenant s.tenants)) same ∙ load-store conv tenant s.tenants,
    )
    | inr other ↦
        let (t, p) = m.has_tenant k c h in (t, load-store_other c conv tenant s.tenants other ∙ p)
  ];
}

Call-IsMirrored : (name : ℕ → Text) (s t : Service) → Call name s t → IsMirrored s → IsMirrored t
Call-IsMirrored name s t (resolves rows fails msg new unheld) m =
    resolve_conversation-IsMirrored name rows fails msg s m new unheld
Call-IsMirrored name s t (registers tenant conv) m =
    register_conversation-IsMirrored tenant conv s m
Call-IsMirrored name s t (switches msg target own) m =
    switch_conversation-IsMirrored msg target s m own
Call-IsMirrored name s t (resets conv new) m = reset_conversation-IsMirrored name conv s m new

-- Whatever calls of `ResolveConversation`, `RegisterConversation`, `SwitchConversation` and
-- `ResetConversation` a new service has had, its maps mirror each other: a chat is in a conversation exactly
-- if the conversation leads back to the chat, and then its tenant is known. New identifiers belong to no
-- chat, nor does the last conversation of a chat that is not in the cache, and no chat is switched to a
-- conversation that another chat is in.
pub Reach-IsMirrored : (name : ℕ → Text) (s : Service) → Reach name s → IsMirrored s
Reach-IsMirrored name s fresh = empty_service-IsMirrored
Reach-IsMirrored name t (called {s = s} before call) =
    Call-IsMirrored name s t call (Reach-IsMirrored name s before)
