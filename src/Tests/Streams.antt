-- ===== src/Tests/Streams.antt =====
-- Runs of the event stream, the listing, the model's client and the assets.
use filestor.Base.{
  ℕ, ◌≡◌, refl, ◌⊎◌, inl, inr, Bool, true, false, List, [], ◌∷◌, ◌++◌, Option, none, some, All,
  Text, codes,
}
use filestor.Hub.Stream.{Sent, Wake, tick, arrived, handle_upload_events}
use filestor.Hub.Stream.Reader.{events_of, sent_by, sent_events, read_stream-handle_upload_events}
use filestor.Analyze.{Entry, kind_document}
use filestor.Analyze.Prep.{prep_analyze, derived_names}
use filestor.Analyze.Listing.{build_analyze_listing, fields, summary, tool_args_text}
use filestor.Analyze.Listing.Named.{Named}
use filestor.Analyze.Listing.Prepared.{build_analyze_listing-Named}
use filestor.Analyze.Prep.Wiring.{converters}
use filestor.Analyze.Chat.{http_error, chat}
use filestor.Embed.{HttpResponse}
use filestor.Routes.Assets.{js_asset}
use filestor.Tests.Runs.{analyzing}
use filestor.Tests.Convert.{tools, disk, outputs}

abbrev snapshot : Sent
snapshot = record { name = codes "snapshot"; payload = some (codes "{}") }

abbrev wakes : List (Wake × Bool)
wakes =
    (tick, true)
    ∷ (arrived (record { name = codes "files"; payload = some (codes "[1]") }), true)
    ∷ (arrived (record { name = codes "lock"; payload = some (codes "null") }), false)
    ∷ []

stream_test :
    sent_events true snapshot (sent_by wakes)
    ≡ (codes "snapshot", codes "{}") ∷ (codes "files", codes "[1]") ∷ []
stream_test = refl

read_stream-handle_upload_events_example :
    events_of (handle_upload_events true snapshot true wakes)
    ≡ sent_events true snapshot (sent_by wakes)
read_stream-handle_upload_events_example =
    read_stream-handle_upload_events snapshot true wakes (refl, refl)
      ((refl, refl), ((refl, refl), tt))

fields_test : fields (codes " a  b\tc ") ≡ codes "a" ∷ codes "b" ∷ codes "c" ∷ []
unfolding fields
fields_test = refl

abbrev texts : Text → Option Text
texts name = some (codes "one\n two")

args_test : tool_args_text texts (codes " \"\" ") ≡ some (codes "one\n two")
unfolding tool_args_text filestor.Base.trim_right filestor.Base.text_eq
args_test = refl

abbrev no_text : Text → Text
no_text name = []

build_analyze_listing-Named_example :
    All
      (λ e. Named (e.name ∷ derived_names e) (
        build_analyze_listing no_text no_text
          (prep_analyze
            (converters tools disk (codes "/w") outputs)
            (codes "a.pdf" ∷ [])
            analyzing.work).0))
      (prep_analyze
        (converters tools disk (codes "/w") outputs)
        (codes "a.pdf" ∷ [])
        analyzing.work).0
build_analyze_listing-Named_example =
    build_analyze_listing-Named (converters tools disk (codes "/w") outputs) no_text no_text
      (codes "a.pdf" ∷ []) analyzing.work

abbrev report : Entry
report = record {
  name = codes "a.pdf";
  kind = kind_document;
  lines = 0;
  truncated = false;
  text = codes "a.pdf.txt";
  text_lines = 3;
  pages = codes "a.pdf.p01.jpg" ∷ [];
  frames = [];
  image = [];
  failed = false;
}

summary_test : summary report ≡ codes "text 3 lines, 1 pages"
unfolding summary
summary_test = refl

listing_test :
    build_analyze_listing no_text no_text (report ∷ [])
    ≡ codes
        "Files staged for upload (converted forms listed under each source):\n- `a.pdf` (, document)\n  text: `a.pdf.txt` (3 lines)\n  pages: `a.pdf.p01.jpg`\n"
unfolding build_analyze_listing
listing_test = refl

abbrev bad_gateway : Text → Option HttpResponse
bad_gateway body = some (record { status = 502; body = codes " no " })

abbrev any_text : Text → Option Text
any_text bytes = some bytes

chat_test : chat any_text bad_gateway (codes "{}") ≡ inl (http_error 502 (codes "no"))
unfolding chat filestor.Base.trim_right
chat_test = refl

asset_test :
    js_asset (codes "main-1.css" ∷ codes "upload-1a.js" ∷ []) (codes "upload")
    ≡ codes "/static/upload-1a.js"
unfolding js_asset
asset_test = refl
