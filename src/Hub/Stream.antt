-- ===== src/Hub/Stream.antt =====
-- The stream of events to a browser (events.go: writeSSE, handleUploadEvents). What wakes the loop is a
-- sequence, with whether the write it causes succeeds; json.Marshal of an event's payload is part of
-- the event, none when it fails. The headers of the reply are not modelled.
pub mod Reader
use filestor.Base.{
  Bool, true, false, List, [], ◌∷◌, ◌++◌, Option, none, some, if◌then◌else◌, Text, codes,
}

-- an event with its name and its payload as JSON
pub record Sent : Type 0 where
  pub name : Text
  pub payload : Option Text

-- the cases of the select: the request is done, the channel is closed, an event, the heartbeat
pub data Wake : Type 0 where
  done closed tick : Wake
  arrived : Sent → Wake

abbrev pub frame : Text → Text → Text
frame name payload =
    codes "event: " ++ (name ++ (b'\n' ∷ (codes "data: " ++ (payload ++ (b'\n' ∷ b'\n' ∷ [])))))

-- writeSSE: what it writes, or none when the payload is no JSON
unfoldable pub write_sse : Sent → Option Text
write_sse e = framed e.payload
  where
    framed : Option Text → Option Text
    framed none = none
    framed (some payload) = some (frame e.name payload)

abbrev pub ping : Text
ping = codes ": ping\n\n"

-- what is written, and what comes behind it when the write succeeds
abbrev pub written : Bool → Option Text → Text → Text
written ok none rest = []
written ok (some bytes) rest = if ok then bytes ++ rest else []

-- the loop of handleUploadEvents
unfoldable pub stream_from : List (Wake × Bool) → Text
unfolding write_sse
stream_from [] = []
stream_from ((done, ok) ∷ wakes) = []
stream_from ((closed, ok) ∷ wakes) = []
stream_from ((tick, ok) ∷ wakes) = written ok (some ping) (stream_from wakes)
stream_from ((arrived e, ok) ∷ wakes) = written ok (write_sse e) (stream_from wakes)

-- handleUploadEvents: the body, or none for 500
unfoldable pub handle_upload_events : Bool → Sent → Bool → List (Wake × Bool) → Option Text
unfolding stream_from
handle_upload_events streams snapshot ok wakes =
    if streams then some (written ok (write_sse snapshot) (stream_from wakes)) else none
