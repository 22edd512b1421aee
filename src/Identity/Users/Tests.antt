-- ===== src/Identity/Users/Tests.antt =====
-- Tests and examples for internal/domain/service/identity/user_resolver.go.
use whiteagent.Common.{
  false, some, List, [], ◌∷◌, In, Text, codes, text_eq, is_empty, load, store, ◌≡◌, refl,
}
use whiteagent.Store.{User, Db, live_user, find_row, get_user}
use whiteagent.Identity.Users.{resolve_users}
use whiteagent.Identity.Users.Lookups.{IsCurrent, resolve_users_lem}

abbrev eve : User
eve = record {
  id = codes "e";
  tenant = codes "t";
  name = codes "Eve";
  preferred_channel = [];
  deleted = false;
}

abbrev one_user : Db
one_user = record {
  tenants = [];
  users = eve ∷ [];
  identities = [];
  mappings = [];
  invites = [];
  agents = [];
  chats = [];
  faults = [];
  serial = 0;
}

nothing_cached : IsCurrent (codes "t") one_user []
unfolding load
nothing_cached = λ u x h. cc

abbrev asked_for : List Text
asked_for = codes "e" ∷ [] ∷ codes "x" ∷ codes "e" ∷ []

resolve_users_lem_example :
    let ((found, cache'), db') = resolve_users (codes "t") asked_for [] one_user in
    ((u : Text) (x : User) → load u found ≡ some x → live_user (codes "t") u one_user ≡ some x)
    × ((u : Text)
        → In u asked_for
        → is_empty u ≡ false
        → load u found ≡ live_user (codes "t") u one_user)
    × IsCurrent (codes "t") one_user cache'
    × (db' ≡ one_user)
resolve_users_lem_example = resolve_users_lem (codes "t") asked_for [] one_user nothing_cached refl

found_users : (resolve_users (codes "t") asked_for [] one_user).0.0 ≡ (codes "e", eve) ∷ []
unfolding resolve_users load store text_eq find_row get_user whiteagent.Store.query
found_users = refl
