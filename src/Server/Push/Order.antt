-- ===== src/Server/Push/Order.antt =====
-- The order of the Puts of a push: files, digest marks, .meta.json, monthly index (push.go:
-- runPush).
use filestor.Base.{
  ◌≡◌, refl, inl, inr, Bool, true, false, ◌||◌, not, List, [], ◌∷◌, ◌++◌, map, Option, none, some,
  Bool-cases, Text, codes, append-nil,
}
use filestor.Bundle.{BundleMeta, bundle_meta_name}
use filestor.Clock.{parse_time}
use filestor.Index.{append, AppendError, BundleIndex, Bucket}
use filestor.Workspace.{Workspace}
use filestor.Server.{Server, is_nil}
use filestor.Server.Push.{
  PushEnv, Embedding, embedded, embed_failed, vectors_failed, Run, put, fail, push_list, embed,
  publish, meta_key, recorded, record_index, index_key_of, and_then, deliver_bundle, staged_batch,
  digest_batch,
}
use filestor.Server.Push.Phases.{
  Sends, Quiet-trans, fail-Quiet, Quiet-refl, before_Quiet, Quiet-failure, Quiet-success,
  and_then-Sends, put-Sends, push_list-Sends,
}

embed-Sends : (env : PushEnv) (digest : List Text) (r : Run) → Sends [] r (embed env digest r)
unfolding embed
embed-Sends env digest r = elim (Bool-cases (is_nil digest || not env.embedding_configured)) [
  | inl e ↦ rw e (Quiet-success (Quiet-refl r))
  | inr e ↦ rw e (embedded_or_not env.embedding)
]
  where
    embedded_or_not :
        (m : Embedding)
        → Sends [] r (elim m [
          | embedded ↦ (r, true)
          | embed_failed ↦ (fail (codes "embed") r, false)
          | vectors_failed ↦ (fail (codes "vectors") r, false)
        ])
    embedded_or_not embedded = Quiet-success (Quiet-refl r)
    embedded_or_not embed_failed = Quiet-failure (fail-Quiet (codes "embed") r)
    embedded_or_not vectors_failed = Quiet-failure (fail-Quiet (codes "vectors") r)

publish-Sends :
    (env : PushEnv) (prefix : Text) (meta : BundleMeta) (r : Run)
    → Sends (meta_key prefix ∷ []) r (publish env prefix meta r)
unfolding publish
publish-Sends env prefix meta r =
    let p = put env (meta_key prefix) (env.encode_meta meta) r in
    let one = put-Sends env (meta_key prefix) (env.encode_meta meta) r in
    elim (Bool-cases p.1) [
      | inl ok ↦ rw ok (done p one ok)
      | inr no_good ↦ rw no_good (before_Quiet one (fail-Quiet bundle_meta_name p.0))
    ]
  where
    done :
        (p : Run × Bool)
        → Sends (meta_key prefix ∷ []) r p
        → p.1 ≡ true
        → Sends (meta_key prefix ∷ []) r (p.0, true)
    done p one ok = record {
      work_same = one.work_same;
      lock_same = one.lock_same;
      unsent = one.unsent;
      split = one.split;
      all_sent = λ _. one.all_sent ok;
    }

recorded-Sends :
    (meta : BundleMeta) (r : Run) (a : (BundleIndex × Bucket) × Option AppendError)
    → Sends (index_key_of (parse_time meta.time)) r (recorded meta r a)
recorded-Sends meta r ((x, bucket), none) = record {
  work_same = refl;
  lock_same = refl;
  unsent = [];
  split = append-nil _;
  all_sent = λ _. refl;
}
recorded-Sends meta r ((x, bucket), some e) =
    let r1 = record r { server = record r.server { index = x; bucket = bucket } } in
    Quiet-failure (
      Quiet-trans (record { work_same = refl; lock_same = refl; puts_same = refl })
        (fail-Quiet (codes "index") r1))

-- the keys of a push, in the order the comment of runPush gives
abbrev pub planned : Text → Workspace → List Text → List Text → BundleMeta → List Text
planned prefix w names digest meta =
    map (staged_batch prefix w).key names
    ++ (map (digest_batch prefix w).key digest
        ++ ([] ++ (meta_key prefix ∷ [] ++ index_key_of (parse_time meta.time))))

pub deliver_bundle-Sends :
    (env : PushEnv) (prefix : Text) (names digest : List Text) (meta : BundleMeta) (r : Run)
    → Sends
        (planned prefix r.server.work names digest meta)
        r
        (deliver_bundle env prefix names digest meta r)
unfolding deliver_bundle record_index
deliver_bundle-Sends env prefix names digest meta r =
    let w = r.server.work in
    let record_it = record_index env meta in
    let publish_it = publish env prefix meta in
    let embed_it = embed env digest in
    let push_marks = push_list env (digest_batch prefix w) digest in
    let push_files = push_list env (staged_batch prefix w) names in
    let from_meta = and_then publish_it record_it in
    let from_embed = and_then embed_it from_meta in
    let r1 = (push_files r).0 in
    let r2 = (push_marks r1).0 in
    let r3 = (embed_it r2).0 in
    let r4 = (publish_it r3).0 in
    and_then-Sends push_files (and_then push_marks from_embed) r
      (push_list-Sends env (staged_batch prefix w) names r)
      (and_then-Sends push_marks from_embed r1
        (push_list-Sends env (digest_batch prefix w) digest r1)
        (and_then-Sends embed_it from_meta r2 (embed-Sends env digest r2) (
          and_then-Sends publish_it record_it r3 (publish-Sends env prefix meta r3) (
            recorded-Sends meta r4
              (append env.encode_index env.put_ok r4.server.index r4.server.bucket meta)))))
