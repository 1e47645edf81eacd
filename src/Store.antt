-- ===== src/Store.antt =====
-- Listing the keys of the object store (s3.go: s3Store.ListKeys). One ListObjectsV2 request is a
-- parameter: what it answers after a marker, none for an error, else the keys and whether there are
-- more. The loop runs on fuel: the number of requests.
pub mod Order
pub mod Complete
pub mod Objects
use filestor.Base.{
  ℕ, zero, suc, Bool, true, false, ◌||◌, not, List, [], ◌∷◌, ◌++◌, Option, none, some,
  if◌then◌else◌, Text,
}

pub data Listed : Type 0 where
  out_of_fuel failed : Listed
  listed : List Text → Listed

abbrev pub no_keys : List Text → Bool
no_keys [] = true
no_keys (k ∷ ks) = false

-- out.Contents[len(out.Contents)-1].Key
abbrev pub last_of : Text → List Text → Text
last_of k [] = k
last_of k (j ∷ ks) = last_of j ks

module _ (request : Text → Option (List Text × Bool)) where
  -- after a response; `next` goes on after a marker
  abbrev pub after_page :
      List Text → (Text → List Text → Listed) → Text → Option (List Text × Bool) → Listed
  after_page keys next marker none = failed
  after_page keys next marker (some (contents, truncated)) =
      if not truncated || no_keys contents
      then listed (keys ++ contents)
      else next (last_of marker contents) (keys ++ contents)

  unfoldable pub list_from : ℕ → Text → List Text → Listed
  list_from zero marker keys = out_of_fuel
  list_from (suc fuel) marker keys = after_page keys (list_from fuel) marker (request marker)

  -- ListKeys
  unfoldable pub list_keys : ℕ → Listed
  unfolding list_from
  list_keys fuel = list_from fuel [] []
