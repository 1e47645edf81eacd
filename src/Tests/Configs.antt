-- ===== src/Tests/Configs.antt =====
-- The checks of a configuration on concrete values (config.go).
use filestor.Base.{
  ◌≡◌, refl, Bool, true, false, List, [], ◌∷◌, Option, none, some, Text, codes, has_prefix,
}
use filestor.Config.{Config, normalize_endpoint, normalize_headers, validate}
use filestor.Config.Accepted.{IsUsable, validate-IsUsable}

abbrev config : Config
config = record {
  admin = record { username = codes " a"; password = codes "p" };
  s3 = record {
    endpoint = codes "h ";
    region = codes "r";
    bucket = codes "b";
    access_key_id = codes "k";
    secret_access_key = codes "s";
    force_path_style = false;
  };
  workspace = [];
  chat = record {
    url = codes "http://c";
    model = codes "m";
    effort = [];
    headers = (codes " x", codes "1 ") ∷ (codes " ", []) ∷ [];
  };
  embeddings = record {
    url = codes "https://e";
    model = codes "m";
    headers = [];
    negative = false;
  };
  vectors = record {
    url = codes "https://v";
    bucket = codes "b";
    account_id = codes "1";
    access_key_id = codes "k";
    access_key_secret = codes "s";
    index = codes "i";
  };
}

normalize_headers_test : normalize_headers config.chat.headers ≡ (codes "x", codes "1") ∷ []
unfolding normalize_headers filestor.Base.lookup filestor.Base.text_eq filestor.Base.trim_right
    filestor.Base.insert filestor.Base.remove
normalize_headers_test = refl

normalize_endpoint_test : normalize_endpoint config.s3.endpoint ≡ codes "https://h"
unfolding normalize_endpoint filestor.Base.trim_right
normalize_endpoint_test = refl

validate_test : (validate (has_prefix (codes "https://")) config).1 ≡ none
unfolding validate filestor.Base.trim_right
validate_test = refl

validate-IsUsable_example :
    IsUsable (has_prefix (codes "https://")) (validate (has_prefix (codes "https://")) config).0
validate-IsUsable_example = validate-IsUsable (has_prefix (codes "https://")) config validate_test
