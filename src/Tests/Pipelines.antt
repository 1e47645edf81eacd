-- ===== src/Tests/Pipelines.antt =====
-- A push with its embedding, on services that answer with fixed values.
use filestor.Base.{List, [], ◌∷◌, some, Text, codes}
use filestor.Vectors.{VectorsConfig, VectorsService}
use filestor.Vectors.Pipeline.{Pipeline}
use filestor.Tests.Services.{urls, two_values, cfg, reads, now, digest_of, mac_of}

abbrev vectors_config : VectorsConfig
vectors_config = record {
  url = codes "https://cn.oss-vectors.aliyuncs.com";
  bucket = codes "b";
  account_id = codes "1";
  index = codes "i";
  access_key_id = codes "id";
  access_key_secret = codes "secret";
}

abbrev accepts : VectorsService
accepts = record {
  encode = λ index items. codes "{}";
  send = λ url req body. some (record { status = 200; body = [] });
}

abbrev pipeline : Pipeline
pipeline = record {
  embed_config = cfg;
  embed_service = two_values;
  vectors_config = vectors_config;
  vectors_service = accepts;
  urls = urls;
  sha256 = digest_of;
  hmac = mac_of;
  read = reads;
  now = now;
}

abbrev pushed_marks : List Text
pushed_marks = codes "m.txt" ∷ []
