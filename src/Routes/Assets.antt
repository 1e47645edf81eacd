-- ===== src/Routes/Assets.antt =====
-- The names of the built assets (web_static.go: matchAsset, jsAsset, cssAsset). The files of web/dist
-- are an argument.
use filestor.Base.{
  Bool, true, false, ◌&&◌, ◌||◌, List, [], ◌∷◌, ◌++◌, Option, none, some, if◌then◌else◌, Text,
  codes, text_eq, has_prefix, cut_suffix,
}

abbrev pub is_cut : Option Text → Bool
is_cut none = false
is_cut (some s) = true

abbrev pub is_asset : Text → Text → Text → Bool
is_asset name ext f =
    text_eq f (name ++ (b'.' ∷ ext))
    || has_prefix (name ++ codes "-") f && is_cut (cut_suffix (b'.' ∷ ext) f)

-- matchAsset; the empty text is none
unfoldable pub match_asset : List Text → Text → Text → Option Text
unfolding has_prefix cut_suffix
match_asset [] name ext = none
match_asset (f ∷ files) name ext =
    let rest = match_asset files name ext in if is_asset name ext f then some f else rest

abbrev pub asset_path : Text → Option Text → Text
asset_path plain none = codes "/static/" ++ plain
asset_path plain (some match) = codes "/static/" ++ match

-- jsAsset and cssAsset
unfoldable pub js_asset : List Text → Text → Text
unfolding match_asset
js_asset files name = asset_path (name ++ codes ".js") (match_asset files name (codes "js"))

unfoldable pub css_asset : List Text → Text → Text
unfolding match_asset
css_asset files name = asset_path (name ++ codes ".css") (match_asset files name (codes "css"))
