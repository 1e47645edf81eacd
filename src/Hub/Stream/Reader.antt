-- ===== src/Hub/Stream/Reader.antt =====
-- A reader of the stream gets the events that were written (events.go: writeSSE, handleUploadEvents).
use filestor.Base.{
  ◌≡◌, refl, ap, ◌∙◌, Bool, true, false, not, List, [], ◌∷◌, ◌++◌, append_assoc, Option, none, some,
  all, ◌==◌, if◌then◌else◌, drop, Text, codes, split, has_prefix,
}
use filestor.Bundle.Keys.{split-append}
use filestor.Hub.Stream.{
  Sent, Wake, done, closed, tick, arrived, frame, write_sse, ping, written, stream_from,
  handle_upload_events,
}

-- a line of an event stream, as the HTML standard has it
pub data Field : Type 0 where
  no_field : Field
  event_field data_field : Text → Field

unfoldable pub field_of : Text → Field
unfolding has_prefix
field_of line =
    if has_prefix (codes "event: ") line
    then event_field (drop 7 line)
    else if has_prefix (codes "data: ") line
    then data_field (drop 6 line)
    else no_field

abbrev pub Message : Type 0
Message = Text × Text

-- at an empty line, the event is complete if it has data
abbrev pub complete : Text → Option Text → List Message → List Message
complete name none rest = rest
complete name (some payload) rest = (name, payload) ∷ rest

-- a reader, with the name and the data so far
unfoldable pub read_lines : Text → Option Text → List Text → List Message
unfolding field_of
read_lines name payload [] = []
read_lines name payload ([] ∷ ls) = complete name payload (read_lines [] none ls)
read_lines name payload ((c ∷ l) ∷ ls) = elim (field_of (c ∷ l)) [
  | no_field ↦ read_lines name payload ls
  | event_field n ↦ read_lines n payload ls
  | data_field p ↦ read_lines name (some p) ls
]

unfoldable pub read_stream : Text → List Message
unfolding read_lines split
read_stream body = read_lines [] none (split b'\n' body)

abbrev pub OneLine : Text → Type 0
OneLine s = all (λ c. not (c == b'\n')) s ≡ true

-- the events that were written whole
abbrev pub sent_events : Bool → Sent → List Message → List Message
sent_events ok e rest = on_payload e.payload
  where
    on_payload : Option Text → List Message
    on_payload none = []
    on_payload (some payload) = if ok then (e.name, payload) ∷ rest else []

abbrev pub sent_by : List (Wake × Bool) → List Message
sent_by [] = []
sent_by ((done, ok) ∷ wakes) = []
sent_by ((closed, ok) ∷ wakes) = []
sent_by ((tick, ok) ∷ wakes) = if ok then sent_by wakes else []
sent_by ((arrived e, ok) ∷ wakes) = sent_events ok e (sent_by wakes)

-- names and payloads without line feeds, as json.Marshal writes them
abbrev pub LinesOf : Option Text → Type 0
LinesOf none = Unit
LinesOf (some payload) = OneLine payload

abbrev pub IsFramed : Sent → Type 0
IsFramed e = OneLine e.name × LinesOf e.payload

abbrev pub AreFramed : List (Wake × Bool) → Type 0
AreFramed [] = Unit
AreFramed ((arrived e, ok) ∷ wakes) = IsFramed e × AreFramed wakes
AreFramed ((w, ok) ∷ wakes) = AreFramed wakes

frame-append :
    (name payload rest : Text)
    → frame name payload ++ rest
      ≡ (codes "event: " ++ name)
        ++ (b'\n' ∷ ((codes "data: " ++ payload) ++ (b'\n' ∷ b'\n' ∷ rest)))
frame-append name payload rest =
    ap (λ r. codes "event: " ++ r)
      (append_assoc name (b'\n' ∷ (codes "data: " ++ (payload ++ (b'\n' ∷ b'\n' ∷ [])))) rest
        ∙ ap (λ r. name ++ (b'\n' ∷ (codes "data: " ++ r)))
            (append_assoc payload (b'\n' ∷ b'\n' ∷ []) rest))

split-frame :
    (name payload rest : Text)
    → OneLine name
    → OneLine payload
    → split b'\n' (frame name payload ++ rest)
      ≡ (codes "event: " ++ name) ∷ (codes "data: " ++ payload) ∷ [] ∷ split b'\n' rest
split-frame name payload rest n p =
    ap (split b'\n') (frame-append name payload rest)
    ∙ split-append b'\n' (codes "event: " ++ name)
        ((codes "data: " ++ payload) ++ (b'\n' ∷ b'\n' ∷ rest)) n
    ∙ ap (λ ls. (codes "event: " ++ name) ∷ ls)
        (split-append b'\n' (codes "data: " ++ payload) (b'\n' ∷ rest) p
          ∙ ap (λ ls. (codes "data: " ++ payload) ∷ ls) (split-append b'\n' [] rest refl))

read_stream-frame :
    (name payload rest : Text)
    → OneLine name
    → OneLine payload
    → read_stream (frame name payload ++ rest) ≡ (name, payload) ∷ read_stream rest
unfolding read_stream has_prefix field_of
read_stream-frame name payload rest n p =
    ap (read_lines [] none) (split-frame name payload rest n p)

read_stream-ping : (rest : Text) → read_stream (ping ++ rest) ≡ read_stream rest
unfolding read_stream has_prefix field_of split
read_stream-ping rest = refl

read_stream-nil : read_stream [] ≡ []
unfolding read_stream split
read_stream-nil = refl

event-Sent :
    (ok : Bool) (e : Sent) (rest : Text)
    → IsFramed e
    → read_stream (written ok (write_sse e) rest) ≡ sent_events ok e (read_stream rest)
unfolding write_sse
event-Sent ok e rest (n, p) = on_payload ok e.payload p
  where
    on_payload :
        (ok : Bool) (payload : Option Text)
        → LinesOf payload
        → read_stream (written ok (write_sse (record e { payload = payload })) rest)
          ≡ sent_events ok (record e { payload = payload }) (read_stream rest)
    on_payload ok none p = read_stream-nil
    on_payload false (some payload) p = read_stream-nil
    on_payload true (some payload) p = read_stream-frame e.name payload rest n p

stream_from-Sent :
    (wakes : List (Wake × Bool)) → AreFramed wakes → read_stream (stream_from wakes) ≡ sent_by wakes
unfolding stream_from
stream_from-Sent [] h = read_stream-nil
stream_from-Sent ((done, ok) ∷ wakes) h = read_stream-nil
stream_from-Sent ((closed, ok) ∷ wakes) h = read_stream-nil
stream_from-Sent ((tick, true) ∷ wakes) h =
    read_stream-ping (stream_from wakes) ∙ stream_from-Sent wakes h
stream_from-Sent ((tick, false) ∷ wakes) h = read_stream-nil
stream_from-Sent ((arrived e, ok) ∷ wakes) (f, h) =
    event-Sent ok e (stream_from wakes) f ∙ ap (sent_events ok e) (stream_from-Sent wakes h)

-- the events that a reader gets from the body of a reply
abbrev pub events_of : Option Text → List Message
events_of none = []
events_of (some body) = read_stream body

-- When the names and payloads have no line feed: a reader of event streams gets, from the body
-- that handleUploadEvents writes, the snapshot and then every event that was written before the
-- stream ended, in order, and nothing else.
pub read_stream-handle_upload_events :
    (snapshot : Sent) (ok : Bool) (wakes : List (Wake × Bool))
    → IsFramed snapshot
    → AreFramed wakes
    → events_of (handle_upload_events true snapshot ok wakes)
      ≡ sent_events ok snapshot (sent_by wakes)
unfolding handle_upload_events
read_stream-handle_upload_events snapshot ok wakes f h =
    event-Sent ok snapshot (stream_from wakes) f
    ∙ ap (sent_events ok snapshot) (stream_from-Sent wakes h)
