-- ===== src/Prompt/Blocks.antt =====
-- internal/domain/service/prompt/prompt.go, pkg/xml/xml.go, pkg/util/format.go: the context blocks.
use whiteagent.Common.{
  ℕ, suc, ◌*◌, ◌/◌, Bool, true, false, not, ◌&&◌, Option, none, some, List, [], ◌∷◌, ◌++◌, Text,
  codes, load, ltb, ◌==◌, if◌then◌else◌, is_empty,
}
use whiteagent.Entity.{Message, ToolCall, Attachment, is_user}

-- The standard library: a time in RFC 3339, a number in base ten, a quotient with one decimal, and JSON.
pub record Format : Type 0 where
  pub stamp : ℕ → Text
  pub itoa : ℕ → Text
  pub decimal : ℕ → ℕ → Text
  pub encode_calls : List ToolCall → Option Text

-- `FormatTimestampUTC`
abbrev pub format_timestamp : Format → ℕ → Text
format_timestamp format t = if t == 0 then [] else format.stamp t

abbrev mb : ℕ
mb = 1024 * 1024

abbrev gb : ℕ
gb = 1024 * mb

format_size : Format → ℕ → Text
format_size format bytes =
    if ltb bytes 1024
    then format.itoa bytes ++ codes " B"
    else if ltb bytes mb
    then format.itoa (bytes / 1024) ++ codes " KB"
    else if ltb bytes gb
    then format.decimal bytes mb ++ codes " MB"
    else format.decimal bytes gb ++ codes " GB"

-- html.EscapeString
abbrev escape_byte : ℕ → Text
escape_byte c =
    if c == b'&'
    then codes "&amp;"
    else if c == 39
    then codes "&#39;"
    else if c == b'<'
    then codes "&lt;"
    else if c == b'>'
    then codes "&gt;"
    else if c == 34
    then codes "&#34;"
    else c ∷ []

escape : Text → Text
escape [] = []
escape (c ∷ s) = escape_byte c ++ escape s

abbrev pub Attrs : Type 0
Attrs = List (Text × Text)

attrs_text : Attrs → Text
unfolding escape
attrs_text [] = []
attrs_text ((k, v) ∷ as') = (32 ∷ k) ++ codes "=\"" ++ escape v ++ codes "\"" ++ attrs_text as'

pub open_tag : Text → Attrs → Text
unfolding attrs_text
open_tag name attrs = codes "<" ++ name ++ attrs_text attrs ++ codes ">\n"

self_close_tag : Text → Attrs → Text
unfolding attrs_text
self_close_tag name attrs = codes "<" ++ name ++ attrs_text attrs ++ codes "/>"

pub close_tag : Text → Text
close_tag name = codes "</" ++ name ++ codes ">\n"

pub child_raw : Text → Text → Text
child_raw name text =
    if is_empty text
    then []
    else codes "  <" ++ name ++ codes ">" ++ text ++ codes "</" ++ name ++ codes ">\n"

pub child : Text → Text → Text
unfolding escape
child name text =
    if is_empty text
    then []
    else codes "  <" ++ name ++ codes ">" ++ escape text ++ codes "</" ++ name ++ codes ">\n"

abbrev pub attr_if : Bool → Text → Text → Attrs
attr_if true k v = (k, v) ∷ []
attr_if false k v = []

abbrev name_attr : Option Text → Attrs
name_attr none = []
name_attr (some name) = attr_if (not (is_empty name)) (codes "user_name") name

context_attrs : Format → Message → List (Text × Text) → Attrs
context_attrs format m names =
    attr_if (not (is_empty m.id)) (codes "msg_id") m.id
    ++ attr_if (not (m.created_at == 0)) (codes "ts") (format_timestamp format m.created_at)
    ++ attr_if (not (is_empty m.replied_to)) (codes "reply_to") m.replied_to
    ++ (if is_user m.role && not (is_empty m.user_id)
        then (codes "user_id", m.user_id) ∷ name_attr (load m.user_id names)
        else [])

attachment_block : Format → Text → ℕ → Attachment → Text
unfolding open_tag child close_tag format_size
attachment_block format prefix i a =
    open_tag (codes "attachment") ((codes "idx", format.itoa i) ∷ [])
    ++ child (codes "kind") a.kind
    ++ child (codes "filename") a.filename
    ++ child (codes "size") (format_size format a.size)
    ++ child (codes "mime_type") a.mime_type
    ++ child (codes "path") (prefix ++ a.filename)
    ++ child (codes "caption") a.caption
    ++ close_tag (codes "attachment")

attachment_blocks : Format → Text → ℕ → List Attachment → Text
unfolding attachment_block
attachment_blocks format prefix i [] = []
attachment_blocks format prefix i (a ∷ as') =
    attachment_block format prefix i a ++ attachment_blocks format prefix (suc i) as'

context_block : Format → Message → List (Text × Text) → Text → Text
unfolding context_attrs self_close_tag open_tag attachment_blocks close_tag
context_block format m names path =
    if m.evicted
    then self_close_tag (codes "wa_msg_context")
        (context_attrs format m names ++ ((codes "evicted", []) ∷ []))
      ++ codes "\n\n"
    else if is_empty m.attachments
    then self_close_tag (codes "wa_msg_context") (context_attrs format m names) ++ codes "\n\n"
    else open_tag (codes "wa_msg_context") (context_attrs format m names)
      ++ attachment_blocks format (path ++ codes "/" ++ m.id ++ codes "/") 0 m.attachments
      ++ close_tag (codes "wa_msg_context")
      ++ codes "\n"

-- The empty text for a message with neither identifier nor time.
unfoldable pub build_context_block : Format → Message → List (Text × Text) → Text → Text
unfolding context_block
build_context_block format m names path =
    if is_empty m.id && m.created_at == 0 then [] else context_block format m names path
