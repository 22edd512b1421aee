-- ===== src/Compaction/Tests.antt =====
-- Tests and examples for internal/domain/service/compaction/service.go, in a world that is the list of the
-- summaries saved.
use whiteagent.Common.{
  true, some, List, [], ◌∷◌, ◌++◌, Text, codes, text_le, length, load, store, text_eq, split,
  trim_space, has_prefix, ok, ◌≡◌, refl, arith,
}
use whiteagent.Compaction.{
  Attached, Past, Summary, Request, Given, trim_summarized_messages, new_summary, chosen, compact,
}
use whiteagent.Compaction.Split.{IsAscending, compaction_continues}

abbrev says : Text → Past
says id = record { id = id; role = codes "user"; content = id; attachments = [] }

abbrev history : List Past
history = says (codes "1") ∷ says (codes "2") ∷ says (codes "3") ∷ says (codes "4") ∷ []

abbrev since : List Past
since = says (codes "5") ∷ []

abbrev asked : Request
asked = record { tenant = codes "t"; conversation = codes "c"; latest_message = codes "4" }

abbrev first_summary : Summary
first_summary = record {
  id = codes "s";
  tenant = codes "t";
  conversation = codes "c";
  content = [];
  message_id = codes "1";
}

all-IsAscending : IsAscending (history ++ since)
unfolding text_le
all-IsAscending = (
  refl,
  (
    (refl, (refl, (refl, (refl, tt)))),
    (
      refl,
      (
        (refl, (refl, (refl, tt))),
        (refl, ((refl, (refl, tt)), (refl, ((refl, tt), (refl, (tt, tt)))))),
      ),
    ),
  ),
)

next_chosen : chosen 2 (some first_summary) history ≡ says (codes "2") ∷ []
unfolding whiteagent.Compaction.trim_preserved_tail trim_summarized_messages text_le
next_chosen = refl

compaction_continues_example :
    (kept : List Past) × (trim_summarized_messages history (some first_summary)
      ≡ (says (codes "2") ∷ []) ++ kept)
    × (length kept ≡ 2)
    × (trim_summarized_messages
          (history ++ since)
          (some (new_summary (codes "s2") asked (codes "## Goals") (says (codes "2")) []))
        ≡ kept ++ since)
compaction_continues_example =
    compaction_continues 2 (some first_summary) history since (says (codes "2")) [] (codes "s2")
      (codes "## Goals") asked (omega arith) all-IsAscending next_chosen

abbrev service : Given (List Summary)
service = record {
  latest_summary = λ tenant conv w. (some (some first_summary), w);
  register = λ tenant conv w. w;
  history = λ conv last w. (some history, w);
  render = λ summaries messages. some [];
  complete = λ tenant model prompt w. (some (codes "## goals\nsell\n## State \nfine"), w);
  new_id = λ w. (codes "s2", w);
  save_summary = λ tenant s w. (true, s ∷ w);
}

summary_saved : compact service (codes "m") 2 asked [] ≡ (
  ok tt,
  record {
    id = codes "s2";
    tenant = codes "t";
    conversation = codes "c";
    content = codes "## Goals\nsell\n\n## Files\nNone.\n\n## State\nfine\n\n## Decisions\nNone.";
    message_id = codes "2";
  }
      ∷ [],
)
unfolding compact whiteagent.Compaction.trim_preserved_tail trim_summarized_messages text_le
    whiteagent.Compaction.normalize_summary load store whiteagent.Compaction.parse_sections split
    has_prefix trim_space text_eq whiteagent.Compaction.normalize_files_section
summary_saved = refl
