-- ===== src/Tests/Stores.antt =====
-- The index of bundles (bundle.go) and the staging directory (upload.go) on concrete values.
use filestor.Base.{
  ◌⊎◌, sym, ap, ◌∙◌, any, keys, some_injective, text_eq_iff, Bool, arith, ℕ, zero, suc, length,
  take, drop, take-append, drop-append, ◌≡◌, ◌≢◌, refl, true, false, List, [], ◌∷◌, ◌++◌, Option,
  none, some, Text, codes, text_eq, lookup,
}
use filestor.Bundle.{BundleMeta}
use filestor.Clock.{Time, format_month, parse_time}
use filestor.Index.{BundleIndex, Bucket, index_key, broken_month, append, is_broken}
use filestor.Index.Sync.{Synced}
use filestor.Index.Session.{start, appends, session-Synced}
use filestor.Store.{listed, no_keys, list_keys}
use filestor.Store.Order.{after}
use filestor.Store.Complete.{IsPage, ListsKeys}
use filestor.Workspace.Listing.{text_lt}
use filestor.Names.File.{sanitize_workspace_name}
use filestor.Workspace.{
  FileError, Workspace, saved, written, save_workspace_file, rename_workspace_file,
}
use filestor.Workspace.Restart.{StoreCall, clear_call, save_call, pin_call, mark_unanalyzed_call}
use filestor.Workspace.Files.{save_workspace_file-effect}

abbrev meta : BundleMeta
meta = record { id = codes "0a"; title = codes "t"; time = codes "2024-02-29T09:05" }

abbrev when : Time
when = record { year = 2024; month = 2; day = 29; hour = 9; minute = 5 }

-- January failed to load
abbrev index : BundleIndex
index = record { months = []; by_id = []; broken = (codes "2024-01", true) ∷ [] }

append_ok_time : parse_time meta.time ≡ some when
unfolding parse_time filestor.Clock.read_day filestor.Clock.read_month filestor.Clock.year_number
    filestor.Clock.skip filestor.Clock.two_number filestor.Clock.one_or_two_number
    filestor.Clock.days_in
append_ok_time = refl

not_broken : is_broken index (format_month 2024 2) ≡ false
unfolding format_month filestor.Clock.four_digits filestor.Clock.two_digits lookup text_eq
not_broken = refl

abbrev in_january : BundleMeta
in_january = record meta { time = codes "2024-01-29T09:05" }

january_broken : (append (λ l. []) (λ k. true) index [] in_january).1 ≡ some broken_month
unfolding append parse_time filestor.Clock.read_day filestor.Clock.read_month
    filestor.Clock.year_number filestor.Clock.skip filestor.Clock.two_number
    filestor.Clock.one_or_two_number filestor.Clock.days_in lookup text_eq format_month
    filestor.Clock.four_digits filestor.Clock.two_digits
january_broken = refl

-- A text for a list of entries: their number, and each field after its length.
abbrev put_text : Text → Text → Text
put_text t rest = length t ∷ (t ++ rest)

abbrev text_of : Text → Text × Text
text_of [] = ([], [])
text_of (n ∷ s) = (take n s, drop n s)

body : List BundleMeta → Text
body [] = []
body (m ∷ ms) = put_text m.id (put_text m.title (put_text m.time (body ms)))

cons_meta : BundleMeta → Option (List BundleMeta) → Option (List BundleMeta)
cons_meta m none = none
cons_meta m (some ms) = some (m ∷ ms)

entries : ℕ → Text → Option (List BundleMeta)
entries zero s = some []
entries (suc n) s =
    let (id, s1) = text_of s in
    let (title, s2) = text_of s1 in
    let (time, s3) = text_of s2 in
    cons_meta (record { id = id; title = title; time = time }) (entries n s3)

abbrev encode : List BundleMeta → Text
encode l = length l ∷ body l

abbrev decode : Text → Option (List BundleMeta)
decode [] = none
decode (n ∷ s) = entries n s

round_trip : (l : List BundleMeta) → decode (encode l) ≡ some l
unfolding body entries cons_meta
round_trip [] = refl
round_trip (m ∷ ms) =
    let third = put_text m.time (body ms) in
    let second = put_text m.title third in
    rw
      (
        take-append m.id second,
        drop-append m.id second,
        take-append m.title third,
        drop-append m.title third,
        take-append m.time (body ms),
        drop-append m.time (body ms),
        round_trip ms,
      )
      refl

abbrev february : ℕ
february = 2

abbrev keys_held : List Text
keys_held = codes "index/2023/2023-12.json" ∷ codes "index/2024/2024-02.json" ∷ []

abbrev held : Bucket
held =
    (codes "index/2023/2023-12.json", encode [])
    ∷ (codes "index/2024/2024-02.json", encode (meta ∷ []))
    ∷ []

abbrev one_at_a_time : List Text → List Text × Bool
one_at_a_time [] = ([], false)
one_at_a_time (k ∷ []) = (k ∷ [], false)
one_at_a_time (k ∷ j ∷ ks) = (k ∷ [], true)

abbrev service : Text → Option (List Text × Bool)
service marker = some (one_at_a_time (after marker keys_held))

one_at_a_time-IsPage :
    (marker : Text) (left contents : List Text) (truncated : Bool)
    → after marker keys_held ≡ left
    → one_at_a_time left ≡ (contents, truncated)
    → IsPage keys_held marker contents truncated
one_at_a_time-IsPage marker [] contents truncated e p = record {
  rest = [];
  next_keys = e ∙ ap (λ x. x.0 ++ []) p;
  at_end = λ t. refl;
  some_key = λ t. cc (ap (λ x. x.1) p);
}
one_at_a_time-IsPage marker (k ∷ []) contents truncated e p = record {
  rest = [];
  next_keys = e ∙ ap (λ x. x.0 ++ []) p;
  at_end = λ t. refl;
  some_key = λ t. cc (ap (λ x. x.1) p);
}
one_at_a_time-IsPage marker (k ∷ j ∷ ks) contents truncated e p = record {
  rest = j ∷ ks;
  next_keys = e ∙ ap (λ x. x.0 ++ (j ∷ ks)) p;
  at_end = λ t. cc (ap (λ x. x.1) p);
  some_key = λ t. sym (ap (λ x. no_keys x.0) p);
}

service-ListsKeys : ListsKeys keys_held service
unfolding text_lt after
service-ListsKeys = record {
  ascending = ((refl, tt), (tt, tt));
  from_start = refl;
  pages = λ marker contents truncated p.
      one_at_a_time-IsPage marker (after marker keys_held) contents truncated refl
        (some_injective p);
}

list_keys_test : list_keys service 3 ≡ listed keys_held
unfolding list_keys text_lt after
list_keys_test = refl

lookup-unlisted :
    (bucket : Bucket) (key : Text)
    → any (text_eq key) (keys bucket) ≡ false
    → lookup key bucket ≡ none
unfolding lookup
lookup-unlisted [] key h = refl
lookup-unlisted ((k, bytes) ∷ bucket) key h =
    ground (arith, lookup-unlisted bucket key, text_eq_iff k key, text_eq_iff key k)

abbrev pushed : List (BundleMeta × (Text → Bool))
pushed = (record meta { id = codes "0b" }, λ k. true) ∷ []

session-Synced_example :
    let r = appends encode pushed (start (λ k. lookup k held) decode (list_keys service 3), held) in
    Synced decode r.0 r.1
session-Synced_example =
    session-Synced (λ k. lookup k held) decode encode round_trip keys_held service held pushed 3
      service-ListsKeys (λ y m. lookup-unlisted held (index_key y m)) (λ k b e. e) (λ m e. cc)
      (omega arith)

abbrev staged : Workspace
staged = record {
  root = (codes "a", record { is_regular = true; content = codes "x" }) ∷ [];
  state_file = none;
  analyze_dir = [];
  digest_dir = (codes "m", []) ∷ [];
  state = record { time = []; title = []; analyzed = false };
  exists = false;
}

accepts_a : sanitize_workspace_name (codes "d/a") ≡ some (codes "a")
unfolding sanitize_workspace_name
accepts_a = refl

accepts_b : sanitize_workspace_name (codes "b") ≡ some (codes "b")
unfolding sanitize_workspace_name
accepts_b = refl

save_workspace_file-effect_example :
    let r = save_workspace_file (saved true) staged (codes "d/a") (codes "new") in
    (r.1 ≡ none
      → lookup (codes "a") r.0.root ≡ some (record { is_regular = true; content = codes "new" }))
    × ((e : FileError)
        → r.1 ≡ some e
        → (lookup (codes "a") r.0.root ≡ lookup (codes "a") staged.root)
          ⊎ (lookup (codes "a") r.0.root ≡ none))
    × ((k : Text) → k ≢ codes "a" → lookup k r.0.root ≡ lookup k staged.root)
    × (r.0.state ≡ staged.state)
save_workspace_file-effect_example =
    save_workspace_file-effect (saved true) staged (codes "d/a") (codes "new") accepts_a

rename_workspace_file_test :
    (rename_workspace_file false true staged (codes "d/a") (codes "b")).1 ≡ none
unfolding rename_workspace_file sanitize_workspace_name lookup
rename_workspace_file_test = refl

abbrev store_calls : List StoreCall
store_calls =
    pin_call true (codes "2024-02-29T09:05")
    ∷ save_call false staged.state
    ∷ mark_unanalyzed_call (written (λ n. true))
    ∷ clear_call (record { state_goes = true; stays = λ n. true })
    ∷ save_call true (record { time = []; title = codes "t"; analyzed = false })
    ∷ []
