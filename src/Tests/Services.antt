-- ===== src/Tests/Services.antt =====
-- Runs of the embedding and the vectors clients on services that answer with fixed values.
use filestor.Base.{
  ℕ, ◌<◌, ◌≡◌, refl, inr, true, false, List, [], ◌∷◌, Option, some, All, all, length, Text, codes,
  arith, lookup, text_eq,
}
use filestor.Bundle.{BundleMeta}
use filestor.Embed.{Vector, EmbedConfig, EmbedService, embed_digest, base64_encode, is_digest_text}
use filestor.Embed.Aligned.{Outcome, embed_digest-Outcome}
use filestor.Vectors.{
  vector_items, parse_vectors_endpoint, put_vectors, Urls, Url, VectorsConfig, VectorsService,
  VectorsClient, written,
}
use filestor.Vectors.Signing.{
  oss_v4_escape, oss_v4_canonical_query, oss_v4_sign, canonical_request, authorization, Request,
  Stamp,
}
use filestor.Vectors.Signing.Escape.{between, unescape, is_safe, unescape-oss_v4_escape}
use filestor.Vectors.Signing.Signed.{oss_v4_sign-sent}

abbrev pub cfg : EmbedConfig
cfg = record { model = codes "m"; dimensions = 2 }

-- a service that gives the vector (1, 2) for every request
abbrev pub two_values : EmbedService
two_values = record {
  encode = λ r. codes "{}";
  decode = λ b. some (record { embeddings = (1 ∷ 2 ∷ []) ∷ []; code = []; message = [] });
  send = λ b. some (record { status = 200; body = codes "{}" });
}

abbrev pub reads : Text → Option Text
reads n = some (codes "a")

abbrev marks : List Text
marks = codes "text-01.txt" ∷ codes "image-01.jpg" ∷ []

abbrev embedded_marks : List Vector
embedded_marks = (1 ∷ 2 ∷ []) ∷ (1 ∷ 2 ∷ []) ∷ []

embed_digest_test : embed_digest cfg two_values reads marks ≡ inr embedded_marks
unfolding embed_digest
embed_digest_test = refl

embed_digest-Outcome_example :
    (d : ℕ) × (0 < d)
    × Outcome cfg two_values reads d marks (embed_digest cfg two_values reads marks)
embed_digest-Outcome_example = embed_digest-Outcome cfg two_values reads marks

base64_test : base64_encode (codes "Many") ≡ codes "TWFueQ=="
unfolding base64_encode
base64_test = refl

digest_text_test : is_digest_text (codes "image-01.jpg") ≡ false
unfolding is_digest_text
digest_text_test = refl

abbrev bundle_meta : BundleMeta
bundle_meta = record { id = codes "x"; title = codes "t"; time = codes "2024-01-02T03:04" }

abbrev resource : Text
resource = codes "/acs:a b"

escape_test : oss_v4_escape resource ≡ codes "/acs%3Aa%20b"
unfolding oss_v4_escape
escape_test = refl

abbrev Bytes : Type 0
Bytes = All (λ c. c < 256) resource

bytes_ok : Bytes
bytes_ok = ground arith

unescape-oss_v4_escape_example :
    (unescape between (oss_v4_escape resource) ≡ resource)
    × (all is_safe (oss_v4_escape resource) ≡ true)
unescape-oss_v4_escape_example = unescape-oss_v4_escape resource bytes_ok

query_test : oss_v4_canonical_query (codes "b=2&putVectors&&a=1+2") ≡ codes "a=1%202&b=2&putVectors"
unfolding oss_v4_canonical_query filestor.Workspace.Listing.insert_sorted
    filestor.Workspace.Listing.text_lt text_eq
query_test = refl

abbrev pub now : Stamp
now = record {
  time = record { year = 2024; month = 1; day = 2; hour = 3; minute = 4 };
  second = 5;
  http_date = codes "Tue, 02 Jan 2024 03:04:05 GMT";
}

abbrev post : Request
post = record {
  method = codes "POST";
  raw_query = codes "putVectors";
  headers = (codes "content-type", codes " application/json " ∷ []) ∷ [];
}

abbrev pub digest_of : Text → Text
digest_of s = length s ∷ []

abbrev pub mac_of : Text → Text → Text
mac_of key s = length key ∷ length s ∷ []

oss_v4_sign-sent_example :
    let sent =
      oss_v4_sign digest_of mac_of resource (codes "r") (codes "id") (codes "secret") [] now post in
    lookup (codes "authorization") sent.headers
    ≡ some (
        authorization digest_of mac_of now
          (codes "r")
          (codes "id")
          (codes "secret")
          []
          (canonical_request [] resource sent)
        ∷ [])
unfolding oss_v4_sign filestor.Vectors.Signing.oss_v4_signed_header text_eq
oss_v4_sign-sent_example =
    oss_v4_sign-sent digest_of mac_of resource (codes "r") (codes "id") (codes "secret") [] now post
      refl

abbrev pub urls : Urls
urls = record {
  parse = λ s. some (record {
    scheme = codes "https";
    host = codes "cn.oss-vectors.aliyuncs.com";
    path = [];
    raw_query = codes "putVectors";
    fragment = [];
  });
  hostname = λ u. u.host;
  print = λ u. u.host;
}

endpoint_test :
    parse_vectors_endpoint urls (codes "https://cn.oss-vectors.aliyuncs.com") ≡ some (codes "cn")
unfolding parse_vectors_endpoint
endpoint_test = refl
