-- ===== src/Identity/Stable.antt =====
-- internal/domain/service/identity/resolver.go: repeated resolutions of one sender.
use whiteagent.Common.{ℕ, Bool, some, Text, ◌≡◌, load}
use whiteagent.Onboarding.{Incoming}
use whiteagent.Identity.{ResolvedIdentity, UserEntry, ChatEntry, State, cache_key, identity_of}

module _ (name : ℕ → Text) (channel : Text) (msg : Incoming) where
  -- The chat that was answered is the one that the cache has.
  abbrev HasChat : Text × Bool → State → Type 0
  HasChat p st =
      (e : ChatEntry) × (load (cache_key channel msg.chat) st.cache.chats ≡ some e)
      × ((e.chat, e.is_group) ≡ p)

  abbrev Chatted : State → Text × Bool → State → Type 0
  Chatted st p st' = HasChat p st' × (st'.cache.users ≡ st.cache.users)

  -- The cache has the sender and the chat of an identity.
  abbrev Known : ResolvedIdentity → State → Type 0
  Known ri st =
      (e : UserEntry) × (p : Text × Bool) × (load (cache_key channel msg.user) st.cache.users
        ≡ some e)
      × HasChat p st
      × (identity_of name e p ≡ ri)
