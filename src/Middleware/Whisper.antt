-- ===== src/Middleware/Whisper.antt =====
-- pkg/plugins/middleware/whisper/plugin.go: `Wrap`, which puts the text of voice messages into a message.
-- `transcribe`, which reads a file and asks a service, is a parameter; none is an error.
use whiteagent.Common.{
  ℕ, Bool, true, false, not, ◌||◌, Bool-cases, inl, inr, Option, none, some, List, [], ◌∷◌, ◌++◌,
  append-nil, append_assoc, Text, codes, text_eq, if◌then◌else◌, is_empty, ◌≡◌, refl, sym, ap, ◌∙◌,
  arith,
}
use whiteagent.Middleware.{Attachment, Message, Handler}

-- What became of an attachment: none is for one that is not spoken, and then an error, or the text.
abbrev pub Outcome : Type 0
Outcome = Attachment × Option (Option Text)

abbrev pub is_spoken : Attachment → Bool
is_spoken a = text_eq a.kind (codes "voice") || text_eq a.kind (codes "video_note")

pub has_transcribable : List Attachment → Bool
has_transcribable [] = false
has_transcribable (a ∷ as') = if is_spoken a then true else has_transcribable as'

abbrev pub append_content : Text → Text → Text
append_content existing addition =
    if is_empty existing then addition else existing ++ (10 ∷ addition)

abbrev pub failure_notice : Text
failure_notice = codes "[transcription failed]"

module _ {W : Type 0} (transcribe : Attachment → W → Option Text × W) where
  -- One attachment that is spoken: the attachments kept, and the content.
  heard : Attachment → Option Text → List Attachment → Text → List Attachment × Text
  heard a none kept content = (kept ++ (a ∷ []), append_content content failure_notice)
  heard a (some text) kept content = (kept, append_content content text)

  transcribe_loop : List Attachment → List Attachment → Text → W → (List Attachment × Text) × W
  unfolding heard
  transcribe_loop [] kept content w = ((kept, content), w)
  transcribe_loop (a ∷ as') kept content w =
      if is_spoken a
      then transcribe_loop as' (heard a (transcribe a w).0 kept content).0
          (heard a (transcribe a w).0 kept content).1 (transcribe a w).1
      else transcribe_loop as' (kept ++ (a ∷ [])) content w

  unfoldable pub wrap_whisper : Handler W → Handler W
  unfolding has_transcribable transcribe_loop
  wrap_whisper next msg w =
      if not (has_transcribable msg.attachments)
      then next msg w
      else (let ((kept, content), w') = transcribe_loop msg.attachments [] msg.content w in
          next (record msg { attachments = kept; content = content }) w')

  abbrev pub outcomes : List Attachment → W → List Outcome
  outcomes [] w = []
  outcomes (a ∷ as') w =
      if text_eq a.kind (codes "voice") || text_eq a.kind (codes "video_note")
      then (a, some (transcribe a w).0) ∷ outcomes as' (transcribe a w).1
      else (a, none) ∷ outcomes as' w

  abbrev pub world_after : List Attachment → W → W
  world_after [] w = w
  world_after (a ∷ as') w =
      if text_eq a.kind (codes "voice") || text_eq a.kind (codes "video_note")
      then world_after as' (transcribe a w).1
      else world_after as' w

-- The attachments that stay: all but those that were understood.
abbrev pub left_over : List Outcome → List Attachment
left_over [] = []
left_over ((a, none) ∷ os) = a ∷ left_over os
left_over ((a, some none) ∷ os) = a ∷ left_over os
left_over ((a, some (some text)) ∷ os) = left_over os

-- The pieces of text that the spoken attachments give.
abbrev pub spoken_texts : List Outcome → List Text
spoken_texts [] = []
spoken_texts ((a, none) ∷ os) = spoken_texts os
spoken_texts ((a, some none) ∷ os) = codes "[transcription failed]" ∷ spoken_texts os
spoken_texts ((a, some (some text)) ∷ os) = text ∷ spoken_texts os

abbrev append_all : Text → List Text → Text
append_all content [] = content
append_all content (t ∷ ts) = append_all (append_content content t) ts

-- Texts, each after the first on a line of its own.
abbrev pub further_lines : List Text → Text
further_lines [] = []
further_lines (t ∷ ts) = 10 ∷ (t ++ further_lines ts)

-- The lines of a text, from the first one that is not empty on.
abbrev pub lines_of : List Text → Text
lines_of [] = []
lines_of (t ∷ ts) = let later = lines_of ts in if is_empty t then later else t ++ further_lines ts

append_all-further :
    (b : ℕ) (content : Text) (ts : List Text)
    → append_all (b ∷ content) ts ≡ (b ∷ content) ++ further_lines ts
append_all-further b content [] = sym (append-nil (b ∷ content))
append_all-further b content (t ∷ ts) =
    append_all-further b (content ++ (10 ∷ t)) ts
    ∙ append_assoc (b ∷ content) (10 ∷ t) (further_lines ts)

append_all-lines_of :
    (content : Text) (ts : List Text) → append_all content ts ≡ lines_of (content ∷ ts)
append_all-lines_of [] [] = refl
append_all-lines_of [] (t ∷ ts) = append_all-lines_of t ts
append_all-lines_of (b ∷ content) ts = append_all-further b content ts

module _ {W : Type 0} (transcribe : Attachment → W → Option Text × W) where
  -- What the loop makes of the outcomes.
  abbrev summed : List Outcome → List Attachment → Text → W → (List Attachment × Text) × W
  summed os kept content w = ((kept ++ left_over os, append_all content (spoken_texts os)), w)

  abbrev Summed : List Attachment → Type 0
  Summed as' =
      (kept : List Attachment) (content : Text) (w : W)
      → transcribe_loop transcribe as' kept content w
        ≡ summed (outcomes transcribe as' w) kept content (world_after transcribe as' w)

  -- One attachment more is kept.
  kept_more :
      (a : Attachment) (os : List Outcome) (kept : List Attachment) (content : Text) (w : W)
      → summed os (kept ++ (a ∷ [])) content w
        ≡ ((kept ++ (a ∷ left_over os), append_all content (spoken_texts os)), w)
  kept_more a os kept content w =
      ap (λ k. ((k, append_all content (spoken_texts os)), w))
        (append_assoc kept (a ∷ []) (left_over os))

  heard_lem :
      (a : Attachment) (as' : List Attachment) (o : Option Text) (kept : List Attachment)
      (content : Text) (w : W)
      → Summed as'
      → transcribe_loop transcribe as'
          (heard transcribe a o kept content).0
          (heard transcribe a o kept content).1
          w
        ≡ summed
            ((a, some o) ∷ outcomes transcribe as' w)
            kept
            content
            (world_after transcribe as' w)
  unfolding heard
  heard_lem a as' none kept content w again =
      again (kept ++ (a ∷ [])) (append_content content failure_notice) w
      ∙ kept_more a (outcomes transcribe as' w) kept (append_content content failure_notice)
          (world_after transcribe as' w)
  heard_lem a as' (some text) kept content w again = again kept (append_content content text) w

  transcribe_loop_lem : (as' : List Attachment) → Summed as'
  unfolding transcribe_loop
  transcribe_loop_lem [] kept content w = ap (λ k. ((k, content), w)) (sym (append-nil kept))
  transcribe_loop_lem (a ∷ as') kept content w =
      let again = transcribe_loop_lem as' in
      elim (Bool-cases (is_spoken a)) [
        | inl spoken ↦
            rw spoken (heard_lem a as' (transcribe a w).0 kept content (transcribe a w).1 again)
        | inr other ↦ rw other (
            again (kept ++ (a ∷ [])) content w
            ∙ kept_more a (outcomes transcribe as' w) kept content (world_after transcribe as' w))
      ]

  -- With nothing to transcribe, nothing changes.
  nothing_spoken :
      (as' : List Attachment) (w : W)
      → has_transcribable as' ≡ false
      → (left_over (outcomes transcribe as' w) ≡ as')
        × (spoken_texts (outcomes transcribe as' w) ≡ [])
        × (world_after transcribe as' w ≡ w)
  unfolding has_transcribable
  nothing_spoken [] w h = (refl, refl, refl)
  nothing_spoken (a ∷ as') w h = elim (Bool-cases (is_spoken a)) [
    | inl spoken ↦ absurd (ground (arith, h, spoken))
    | inr other ↦
        let (kept, quiet, same) = nothing_spoken as' w (ground (arith, h, other)) in
        rw other (ap (λ k. a ∷ k) kept, quiet, same)
  ]

wrap_whisper-append_all :
    {W : Type 0} (transcribe : Attachment → W → Option Text × W) (next : Handler W) (msg : Message)
    (w : W)
    → let os = outcomes transcribe msg.attachments w in
      wrap_whisper transcribe next msg w
      ≡ next
          (record msg {
            attachments = left_over os;
            content = append_all msg.content (spoken_texts os);
          })
          (world_after transcribe msg.attachments w)
unfolding wrap_whisper
wrap_whisper-append_all {W = W} transcribe next msg w =
    elim (Bool-cases (has_transcribable msg.attachments)) [
      | inl some_spoken ↦
          rw some_spoken
            (ap given_on (transcribe_loop_lem transcribe msg.attachments [] msg.content w))
      | inr none_spoken ↦
          let (kept, quiet, same) = nothing_spoken transcribe msg.attachments w none_spoken in
          rw none_spoken (
            ap (λ k. given_on ((k, msg.content), w)) (sym kept)
            ∙ ap
                (λ ts. given_on (
                  (left_over (outcomes transcribe msg.attachments w), append_all msg.content ts),
                  w,
                ))
                (sym quiet)
            ∙ ap
                (λ v. given_on (
                  (
                    left_over (outcomes transcribe msg.attachments w),
                    append_all msg.content (spoken_texts (outcomes transcribe msg.attachments w)),
                  ),
                  v,
                ))
                (sym same))
    ]
  where
    given_on : (List Attachment × Text) × W → Bool × W
    given_on ((kept, content), v) = next (record msg { attachments = kept; content = content }) v

-- The handler within is called once, with the message in which the attachments are those that were not
-- spoken or not understood, in their order, and the content is made of these lines: the content as it was,
-- and for each spoken attachment, in order, its text or a notice of failure, less the empty lines before
-- the first that is not empty. An attachment is spoken if its kind is voice or video_note.
pub wrap_whisper_lem :
    {W : Type 0} (transcribe : Attachment → W → Option Text × W) (next : Handler W) (msg : Message)
    (w : W)
    → let os = outcomes transcribe msg.attachments w in
      wrap_whisper transcribe next msg w
      ≡ next
          (record msg {
            attachments = left_over os;
            content = lines_of (msg.content ∷ spoken_texts os);
          })
          (world_after transcribe msg.attachments w)
wrap_whisper_lem transcribe next msg w =
    let os = outcomes transcribe msg.attachments w in
    wrap_whisper-append_all transcribe next msg w
    ∙ ap
        (λ c.
          next (record msg { attachments = left_over os; content = c })
            (world_after transcribe msg.attachments w))
        (append_all-lines_of msg.content (spoken_texts os))
