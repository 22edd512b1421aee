-- ===== src/Identity/Users.antt =====
-- internal/domain/service/identity/user_resolver.go: `ResolveUsers`, which looks up users by their
-- identifiers, with a cache of its own.
pub mod Lookups
pub mod Tests
use whiteagent.Common.{
  ◌||◌, Bool, true, false, Option, none, some, List, [], ◌∷◌, ◌++◌, Text, text_eq, if◌then◌else◌,
  is_empty, load, store,
}
use whiteagent.Store.{User, Db, Reply, ok, stop, get_user}

abbrev pub Users : Type 0
Users = List (Text × User)

-- `cacheKey`
abbrev pub name_key : Text → Text → Text
name_key tenant user = tenant ++ (b':' ∷ user)

abbrev pub is_seen : Text → List Text → Bool
is_seen u [] = false
is_seen u (s ∷ ss) = let rest = is_seen u ss in if text_eq u s then true else rest

-- What the cache says of a user: the users found, and the ones that are to be fetched.
noted : Option User → Text → Users → List Text → Users × List Text
noted none u found fetch = (found, fetch ++ (u ∷ []))
noted (some x) u found fetch = (store u x found, fetch)

collect : Text → List Text → List Text → Users → Users → List Text → Users × List Text
unfolding noted
collect tenant [] seen cache found fetch = (found, fetch)
collect tenant (u ∷ us) seen cache found fetch =
    let skip = is_empty u || is_seen u seen in
    let (found', fetch') =
      if skip then (found, fetch) else noted (load (name_key tenant u) cache) u found fetch in
    collect tenant us (if skip then seen else u ∷ seen) cache found' fetch'

-- The answer of the store: an error, or no such user, is passed over.
fetched : Text → Text → Reply (Option User) → Users → Users → Users × Users
fetched tenant u (stop s) found cache = (found, cache)
fetched tenant u (ok none) found cache = (found, cache)
fetched tenant u (ok (some x)) found cache = (store u x found, store (name_key tenant u) x cache)

fetch_all : Text → List Text → Users → Users → Db → (Users × Users) × Db
unfolding fetched
fetch_all tenant [] found cache db = ((found, cache), db)
fetch_all tenant (u ∷ us) found cache db =
    let (answer, db') = get_user tenant u db in
    let (found', cache') = fetched tenant u answer found cache in
    fetch_all tenant us found' cache' db'

-- The users found, and the cache.
pub resolve_users : Text → List Text → Users → Db → (Users × Users) × Db
unfolding collect fetch_all
resolve_users tenant ids cache db =
    let (found, fetch) = collect tenant ids [] cache [] [] in fetch_all tenant fetch found cache db
