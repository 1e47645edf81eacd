-- ===== src/Lib.antt =====
-- A verification library for filestor, a single-instance server that stages files in a workspace
-- directory, has a language model analyze them, and pushes them as one bundle to an object store.
--
-- The parts, and the files that model them:
-- - Names/File.antt: sanitizeWorkspaceName (upload.go), the name under which an upload is staged.
-- - Names/Title.antt: sanitizePushTitle (push.go), the title of a bundle.
-- - Clock.antt: the time layouts of push.go and browse.go, as time.Parse and Format treat them.
-- - Bundle.antt: the ids of bundles and their keys in the bucket (bundle.go).
-- - Index.antt: bundleIndex (bundle.go), the months in memory and their files in the bucket.
-- - Workspace.antt, Workspace/Listing.antt: the staging directory with state.json, and the
--   workspaceStateStore in memory (upload.go).
-- - Hub.antt: eventHub (events.go): the workspace lock, the subscribers, the job's progress.
--   Hub/Stream.antt: writeSSE and handleUploadEvents.
-- - Server.antt: the requests handleUploadAdd, handleUploadDelete and handleUploadState
--   (upload.go), over one record of the hub, the workspace, the index and the bucket.
-- - Server/Push.antt: runPush (push.go); Server/Push/Handler.antt: handleUploadPush (push.go).
-- - Analyze.antt: the analyze run (analyze.go). Analyze/Budget.antt: analyzeBudget;
--   Analyze/Prep.antt: prepAnalyze and indexEntries; Analyze/Paging.antt: pagedText;
--   Analyze/Marks.antt: toolLoadMedia, toolMarkText, toolMarkImage; Analyze/Time.antt:
--   parseAnalyzeTime; Analyze/Tools.antt: runTool; Analyze/Loop.antt: run, finalize,
--   trimImageMessages; Analyze/Job.antt: handleUploadAnalyze; Analyze/Listing.antt: textPeek and
--   buildAnalyzeListing; Analyze/Chat.antt: chat.
-- - Config.antt: validate (config.go), the checks of the configuration file.
-- - Store.antt: ListKeys (s3.go). Index/Session.antt: the index from NewServer's load on.
-- - Convert.antt and the modules below it: the conversions (convert.go).
-- - Embed.antt: embedContent and embedDigest (embed.go). Vectors.antt, Vectors/Signing.antt: the
--   endpoints, putVectors and ossV4Sign (vectors.go); Vectors/Pipeline.antt: how runPush uses them.
-- - Detail.antt: handleBundle (detail.go), with loadBundleMeta (bundle.go) and formatSize
--   (browse.go). Store/Objects.antt: List and Get (s3.go).
-- - Routes.antt: Handler (server.go), which handlers need a login. Routes/Download.antt:
--   handleDownload, handlePreview (server.go) and the signed URLs (s3.go). Routes/Assets.antt:
--   matchAsset (web_static.go).
-- - Login.antt: the login and its session cookie (auth.go; server.go: handleLogin).
-- - Browse.antt: fileIcon and previewKind (browse.go), the kinds of files that the pages show.
--   Browse/Calendar.antt: buildBrowseCalendar (browse.go; server.go: handleBrowse).
-- The modules below these state and prove what holds of them; Tests/ has the tests.
--
-- How they interact: a request takes the lock of Hub, changes Workspace through names that
-- Names/File accepts, and publishes the change on Hub; an analyze run takes the lock, steers the
-- tools of Analyze by the model's answers, which rename files and mark the digest, and sets the
-- analyzed flag of Workspace; a push takes the lock, checks the analyzed flag of Workspace, makes
-- an id with Bundle, puts the files under its prefix, embeds the marks with Embed and Vectors, and
-- appends to Index. The preparation of a run is filled in with Convert (Analyze/Prep/Wiring.antt),
-- the pages get their objects from Store/Objects.antt, and Routes lets a request pass with a cookie
-- of Login.
--
-- How the code corresponds: Go names in snake_case; a type has the name of its struct. An error is
-- a value of a data type or none; a reply is its status. A handler runs with no other one between
-- its locked sections, but for Hub/Exclusion.antt and Hub/Channels.antt, whose steps are single
-- locked sections in any order.
-- A map or a directory is an association list. Text is a list of code points or bytes, as the code
-- reads it; numbers are natural numbers, since none that is modelled reaches the bounds of its Go
-- type. ToLower treats ASCII letters only; the ids that pass it have no others once they are
-- accepted.
--
-- What is assumed, as parameters: whether each disk operation, Put and service call succeeds; the
-- bytes of rand.Read; the model's answers; what each command of a conversion makes of the
-- files; the answers of the embedding and vectors services; net/url; SHA-256 and HMAC; the answers
-- of ListObjectsV2 and GetObject and the presigned URLs; the JSON texts, with decoding undoing
-- encoding where a theorem says so; the letters and digits beyond ASCII. A Put that fails leaves
-- the object as it was; saving state.json writes a temporary file and renames it, so that it
-- succeeds or changes nothing. A write of a product or a mark that fails may leave a part of it, and
-- a removal whose error the code ignores or only logs may leave what it was to remove.
--
-- All loops are structural recursion, on the list, text or count that the Go loop runs through, so
-- there is no fuel but in Store.antt and Detail.antt, where it is the number of requests, and one
-- more than there are keys or objects is enough; the rounds of a run are those that analyzeBudget
-- gives.
--
-- Not modelled: the prompts and JSON schemas of analyze.go, the JSON of requests and answers, Put
-- of s3.go, which calls the SDK, the rendering of pages, serving static files and the start-up
-- (main.go, web_tmpl.go, the rest of server.go and web_static.go), and logging.
pub mod Base
pub mod Names
pub mod Clock
pub mod Bundle
pub mod Index
pub mod Workspace
pub mod Hub
pub mod Server
pub mod Store
pub mod Convert
pub mod Embed
pub mod Vectors
pub mod Config
pub mod Analyze
pub mod Detail
pub mod Login
pub mod Browse
pub mod Routes
pub mod Tests
