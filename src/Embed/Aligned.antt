-- ===== src/Embed/Aligned.antt =====
-- The vectors of a digest: one for each file, in order, all of one dimension, or the first failure
-- (embed.go: embedDigest).
use filestor.Base.{
  ℕ, ◌<◌, ◌≡◌, refl, ap, ◌≢◌, ◌⊎◌, inl, inr, false, List, [], ◌∷◌, ◌++◌, Option, none, some, ◌==◌,
  ==_iff, length, take, Text, arith, Bool-cases,
}
use filestor.Embed.{
  Vector, Content, EmbedConfig, EmbedService, EmbedResponse, HttpResponse, EmbedError,
  wrong_dimension, first_vector, vector_of, on_response, max_response_bytes, embed_content,
  content_of, embed_item, item, add_vector, next_vector, embed_from, embed_digest, embed_request,
}

-- a vector with one value at least
abbrev Full : EmbedError ⊎ Vector → Type 0
Full (inl e) = Unit
Full (inr v) = 0 < length v

first_vector-Full : (vs : List Vector) → Full (first_vector vs)
first_vector-Full [] = tt
first_vector-Full ([] ∷ vs) = tt
first_vector-Full ((x ∷ v) ∷ vs) = omega arith

vector_of-Full : (o : Option EmbedResponse) → Full (vector_of o)
vector_of-Full none = tt
vector_of-Full (some out) = on_code out.code
  where
    on_code : (code : Text) → Full (vector_of (some (record out { code = code })))
    on_code [] = first_vector-Full out.embeddings
    on_code (c ∷ code) = tt

module _ (cfg : EmbedConfig) (svc : EmbedService) (read : Text → Option Text) where
  on_response-Full : (o : Option HttpResponse) → Full (on_response cfg svc o)
  on_response-Full none = tt
  on_response-Full (some resp) = elim (Bool-cases (resp.status == 200)) [
    | inl e ↦ rw e (vector_of-Full (svc.decode (take max_response_bytes resp.body)))
    | inr e ↦ rw e tt
  ]

  embed_item-Full : (o : Option Content) → Full (embed_item cfg svc o)
  unfolding embed_content
  embed_item-Full none = tt
  embed_item-Full (some content) =
      on_response-Full (svc.send (svc.encode (embed_request cfg content)))

  -- the vectors of the files, in order, each of the dimension d
  abbrev pub Embedded : ℕ → List Text → List Vector → Type 0
  Embedded d [] [] = Unit
  Embedded d (n ∷ ns) (v ∷ vs) = (item cfg svc read n ≡ inr v) × (length v ≡ d) × Embedded d ns vs
  Embedded d _ _ = ⊥

  -- a file that has no vector, or one of another dimension
  abbrev pub Fails : ℕ → Text → EmbedError → Type 0
  Fails d name e =
      (item cfg svc read name ≡ inl e)
      ⊎ ((v : Vector) × (item cfg svc read name ≡ inr v)
          × (length v ≢ d)
          × (e ≡ wrong_dimension (length v) d))

  -- the files before it have their vectors
  pub record FirstFailure (d : ℕ) (names : List Text) (e : EmbedError) : Type 0 where
    pub front : List Text
    pub name : Text
    pub behind : List Text
    pub vectors : List Vector
    pub split : names ≡ front ++ name ∷ behind
    pub done : Embedded d front vectors
    pub fails : Fails d name e

  abbrev pub Outcome : ℕ → List Text → EmbedError ⊎ List Vector → Type 0
  Outcome d names (inr vs) = Embedded d names vs
  Outcome d names (inl e) = FirstFailure d names e

  FirstFailure-here :
      (d : ℕ) (n : Text) (ns : List Text) (e : EmbedError) → Fails d n e → FirstFailure d (n ∷ ns) e
  FirstFailure-here d n ns e h = record {
    front = [];
    name = n;
    behind = ns;
    vectors = [];
    split = refl;
    done = tt;
    fails = h;
  }

  add_vector-Outcome :
      (d : ℕ) (n : Text) (ns : List Text) (v : Vector) (rest : EmbedError ⊎ List Vector)
      → item cfg svc read n ≡ inr v
      → length v ≡ d
      → Outcome d ns rest
      → Outcome d (n ∷ ns) (add_vector v rest)
  add_vector-Outcome d n ns v (inr vs) eq len h = (eq, len, h)
  add_vector-Outcome d n ns v (inl e) eq len h = record {
    front = n ∷ h.front;
    name = h.name;
    behind = h.behind;
    vectors = v ∷ h.vectors;
    split = ap (◌∷◌ n) h.split;
    done = (eq, len, h.done);
    fails = h.fails;
  }

  next_vector-Outcome :
      (d : ℕ) (n : Text) (ns : List Text) (r : EmbedError ⊎ Vector)
      → 0 < d
      → item cfg svc read n ≡ r
      → Outcome d ns (embed_from cfg svc read d ns)
      → Outcome d (n ∷ ns) (next_vector d r (λ k. embed_from cfg svc read k ns))
  next_vector-Outcome d n ns (inl e) pos eq h = FirstFailure-here d n ns e (inl eq)
  next_vector-Outcome d n ns (inr v) pos eq h =
      rw (positive d pos) (elim (Bool-cases (length v == d)) [
        | inl same ↦ rw same (add_vector-Outcome d n ns v _ eq ((==_iff (length v) d).0 same) h)
        | inr other ↦ rw other (FirstFailure-here d n ns _ (inr (v, eq, ground arith, refl)))
      ])
    where
      positive : (k : ℕ) → 0 < k → (k == 0) ≡ false
      positive k pos = ground arith

  embed_from-Outcome :
      (d : ℕ) (names : List Text) → 0 < d → Outcome d names (embed_from cfg svc read d names)
  unfolding embed_from
  embed_from-Outcome d [] pos = tt
  embed_from-Outcome d (n ∷ ns) pos =
      next_vector-Outcome d n ns (item cfg svc read n) pos refl (embed_from-Outcome d ns pos)

  first-Outcome :
      (n : Text) (ns : List Text) (r : EmbedError ⊎ Vector)
      → item cfg svc read n ≡ r
      → Full r
      → (d : ℕ) × (0 < d) × Outcome d (n ∷ ns) (next_vector 0 r (λ k. embed_from cfg svc read k ns))
  first-Outcome n ns (inl e) eq full = (1, omega arith, FirstFailure-here 1 n ns e (inl eq))
  first-Outcome n ns (inr v) eq full = (
    length v,
    full,
    add_vector-Outcome (length v) n ns v _ eq refl (embed_from-Outcome (length v) ns full),
  )

  -- embedDigest either gives, for each file in order, the vector that embedContent gives for it,
  -- all of one dimension above zero; or it fails at the first file that has no vector or one of
  -- another dimension than those before it, with the error of that file.
  pub embed_digest-Outcome :
      (names : List Text) → (d : ℕ) × (0 < d) × Outcome d names (embed_digest cfg svc read names)
  unfolding embed_digest embed_from
  embed_digest-Outcome [] = (1, omega arith, tt)
  embed_digest-Outcome (n ∷ ns) =
      first-Outcome n ns (item cfg svc read n) refl (embed_item-Full (content_of n (read n)))
