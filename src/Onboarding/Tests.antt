-- ===== src/Onboarding/Tests.antt =====
-- internal/domain/service/onboarding/service.go on a tenant with one unused code.
use whiteagent.Common.{
  ◌++◌, ℕ, none, some, [], ◌∷◌, Text, codes, text_eq, ◌≡◌, ◌≢◌, refl, arith, true, false, ◌&&◌, not,
  ◌+◌,
}
use whiteagent.Store.{
  Tenant, User, Invite, Db, open_policy, user_invite, rejected, ok, stop, find_row, upsert,
  update_rows, redeemable, user_by_channel, query, execute, get_tenant, save_user,
  add_user_identity, get_invite, mark_used, use_invite, new_id,
}
use whiteagent.Store.Laws.{Redeemed}
use whiteagent.Onboarding.{
  Incoming, Joined, user_joined, join_user, try_join, create_user, join_with_code, extract_code,
  find_code, code_at, four, to_upper, validate_code, checked, redeem, default_rejection,
}
use whiteagent.Onboarding.Codes.{Holds, extract_code_lem}
use whiteagent.Onboarding.NewCode.{code_char, Random, new_invite_code, extract_code-new_invite_code}
use whiteagent.Onboarding.Once.{try_join_once}
use whiteagent.Onboarding.Race.{made, join_user_race}

abbrev test_name : ℕ → Text
test_name n = (48 + n) ∷ []

abbrev acme : Tenant
acme = record {
  id = codes "acme";
  name = codes "Acme";
  default_agent = codes "bot";
  join_policy = open_policy;
  rejection = [];
  deleted = false;
}

abbrev code : Text
code = codes "AB12-CD34"

abbrev unused : Invite
unused = record {
  code = code;
  kind = user_invite;
  tenant = codes "acme";
  target = [];
  used_by = [];
  revoked = false;
}

abbrev start : Db
start = record {
  tenants = acme ∷ [];
  users = [];
  identities = [];
  mappings = [];
  invites = unused ∷ [];
  agents = [];
  chats = [];
  faults = [];
  serial = 0;
}

abbrev message : Text → Text → Incoming
message user content = record {
  tenant = [];
  user = user;
  chat = codes "chat";
  content = content;
  is_group = false;
  agent_name = [];
  tenant_name = [];
  user_name = codes "Ann";
  group_name = [];
}

abbrev ann : Incoming
ann = message (codes "ann") (codes "my code: ab12-cd34")

abbrev new_user : User
new_user = made test_name (codes "acme") (codes "tg") ann start

abbrev joined : Joined
joined = record { tenant = some acme; user = some new_user; action = user_joined }

abbrev used : Invite
used = record unused { used_by = new_user.id }

abbrev after_join : Db
after_join = record start {
  users = new_user ∷ [];
  identities =
      record {
        tenant = codes "acme";
        channel = codes "tg";
        external = codes "ann";
        user = new_user.id;
      }
      ∷ [];
  invites = used ∷ [];
  serial = 1;
}

-- What a run of a join computes with.
test_join : Unit {0}
unfolding try_join join_with_code checked redeem join_user create_user validate_code extract_code
    to_upper find_code code_at four get_invite get_tenant save_user add_user_identity use_invite
    mark_used new_id query execute find_row upsert update_rows text_eq
test_join = tt

join_ann : try_join test_name (codes "tg") ann [] start ≡ (ok joined, after_join)
unfolding test_join
join_ann = refl

ann_code : extract_code ann.content ≡ code
unfolding test_join
ann_code = refl

try_join_once_example :
    ((user : Text) × (user ≢ []) × Redeemed (extract_code ann.content) user start after_join)
    × ((channel : Text) (msg : Incoming) (tenant : Text) (later : Db)
        → extract_code msg.content ≡ extract_code ann.content
        → later.invites ≡ after_join.invites
        → (try_join test_name channel msg tenant later).0 ≡ stop (rejected default_rejection))
try_join_once_example =
    try_join_once test_name (codes "tg") ann [] start after_join joined (λ n e. cc)
      (λ e. ground (arith, e, ann_code)) join_ann

not_redeemable : find_row (redeemable code) (used ∷ []) ≡ none
unfolding test_join
not_redeemable = refl

join_user_race_example :
    let (reply, after) =
      join_user test_name (codes "tg") code unused ann (record start { invites = used ∷ [] }) in
    (reply ≡ stop (rejected default_rejection))
    × (user_by_channel (codes "acme") (codes "tg") (codes "ann") after ≡ some new_user)
join_user_race_example =
    join_user_race test_name (codes "tg") code unused ann (record start { invites = used ∷ [] })
      refl not_redeemable (unfold find_row in refl)

abbrev greeting : Incoming
greeting = message (codes "eve") (codes "hello")

no_code : extract_code greeting.content ≡ []
unfolding test_join
no_code = refl

acme_gone :
    find_row
      (λ (t : Tenant). text_eq t.id (codes "acme") && not t.deleted)
      (record acme { deleted = true } ∷ [])
    ≡ none
unfolding test_join
acme_gone = refl

extract_code_lem_example :
    (extract_code ann.content ≢ [] → Holds (to_upper ann.content) (extract_code ann.content))
    × ((found : Text) → Holds (to_upper ann.content) found → extract_code ann.content ≢ [])
extract_code_lem_example = extract_code_lem ann.content

abbrev bytes : Random
bytes = record { b0 = 0; b1 = 37; b2 = 255; b3 = 71; b4 = 2; b5 = 3; b6 = 4; b7 = 100 }

new_code : new_invite_code bytes ≡ codes "ABD9-CDE2"
unfolding new_invite_code code_char
new_code = refl

extract_code-new_invite_code_example :
    (extract_code (new_invite_code bytes ++ codes ", please") ≡ new_invite_code bytes)
    × ((content : Text)
        → to_upper content ≡ new_invite_code bytes ++ codes ", please"
        → extract_code content ≡ new_invite_code bytes)
extract_code-new_invite_code_example = extract_code-new_invite_code bytes (codes ", please")
