-- ===== src/Analyze/Chat.antt =====
-- One request to the model (analyze.go: chat). What the answer decodes to, and the encoding of the
-- request, are parameters; the headers are not modelled.
use filestor.Base.{ℕ, ◌*◌, ◌⊎◌, inl, inr, not, Option, none, some, ◌==◌, if◌then◌else◌, take, Text}
use filestor.Embed.{HttpResponse, truncate_body}

pub data ChatError : Type 0 where
  request_failed bad_response : ChatError
  http_error : ℕ → Text → ChatError

abbrev pub max_reply_bytes : ℕ
max_reply_bytes = 4 * 1024 * 1024

abbrev pub decoded {ℓ} : {A : Type ℓ} → Option A → ChatError ⊎ A
decoded none = inl bad_response
decoded (some out) = inr out

abbrev pub on_reply {ℓ} : {A : Type ℓ} → (Text → Option A) → Option HttpResponse → ChatError ⊎ A
on_reply decode none = inl request_failed
on_reply decode (some resp) =
    let bytes = take max_reply_bytes resp.body in
    if not (resp.status == 200)
    then inl (http_error resp.status (truncate_body bytes))
    else decoded (decode bytes)

-- chat, on the body of the request
unfoldable pub chat {ℓ} :
    {A : Type ℓ} → (Text → Option A) → (Text → Option HttpResponse) → Text → ChatError ⊎ A
unfolding truncate_body
chat decode send body = on_reply decode (send body)
