-- ===== src/Prompts/Filled.antt =====
-- What the model is told.
use if_sos_beacon.Base.{Text, codes, ◌≡◌, refl, ap, ◌∙◌, ◌∷◌, ◌++◌, Lacks, has_prefix}
use if_sos_beacon.Base.Go.{trim_space}
use if_sos_beacon.Core.{BeaconContext}
use if_sos_beacon.Prompts.{bucket_lines, build_system}
use if_sos_beacon.Prompts.Replace.{
  brace, replace_all, replace_all-plain, replace_all-match, replace_all-end,
}

-- A template with the three placeholders, in their order, and three texts in their places.
abbrev pub laid_out : Text → Text → Text → Text → Text → Text → Text → Text
laid_out a b c d x y z = a ++ (x ++ (b ++ (y ++ (c ++ (z ++ d)))))

pass_buckets :
    (new s : Text)
    → replace_all (codes "{{BUCKETS}}" ++ s) (codes "{{CONTEXT}}") new
      ≡ codes "{{BUCKETS}}" ++ replace_all s (codes "{{CONTEXT}}") new
unfolding replace_all has_prefix
pass_buckets new s = refl

pass_schema :
    (new s : Text)
    → replace_all (codes "{{SCHEMA}}" ++ s) (codes "{{CONTEXT}}") new
      ≡ codes "{{SCHEMA}}" ++ replace_all s (codes "{{CONTEXT}}") new
unfolding replace_all has_prefix
pass_schema new s = refl

pass_schema_buckets :
    (new s : Text)
    → replace_all (codes "{{SCHEMA}}" ++ s) (codes "{{BUCKETS}}") new
      ≡ codes "{{SCHEMA}}" ++ replace_all s (codes "{{BUCKETS}}") new
unfolding replace_all has_prefix
pass_schema_buckets new s = refl

-- One substitution: what stands before the placeholder, and what is made of the rest.
fill :
    (tail new a rest rest' : Text)
    → Lacks brace a
    → replace_all rest (brace ∷ tail) new ≡ rest'
    → replace_all (a ++ (brace ∷ tail ++ rest)) (brace ∷ tail) new ≡ a ++ (new ++ rest')
fill tail new a rest rest' ha e =
    replace_all-plain tail new a (brace ∷ tail ++ rest) ha
    ∙ ap (λ r. a ++ r) (replace_all-match tail new rest ∙ ap (λ r. new ++ r) e)

-- Two texts without a brace.
plain_then :
    (tail new a b rest rest' : Text)
    → Lacks brace a
    → Lacks brace b
    → replace_all rest (brace ∷ tail) new ≡ rest'
    → replace_all (a ++ (b ++ rest)) (brace ∷ tail) new ≡ a ++ (b ++ rest')
plain_then tail new a b rest rest' ha hb e =
    replace_all-plain tail new a (b ++ rest) ha
    ∙ ap (λ r. a ++ r) (replace_all-plain tail new b rest hb ∙ ap (λ r. b ++ r) e)

-- A placeholder of another name is passed over.
pass :
    (tail new a other rest rest' : Text)
    → Lacks brace a
    → ((s : Text)
        → replace_all (other ++ s) (brace ∷ tail) new ≡ other ++ replace_all s (brace ∷ tail) new)
    → replace_all rest (brace ∷ tail) new ≡ rest'
    → replace_all (a ++ (other ++ rest)) (brace ∷ tail) new ≡ a ++ (other ++ rest')
pass tail new a other rest rest' ha over e =
    replace_all-plain tail new a (other ++ rest) ha
    ∙ ap (λ r. a ++ r) (over rest ∙ ap (λ r. other ++ r) e)

-- The prompt is the template with the three placeholders replaced by the beacon's context, its
-- buckets and the schema, each trimmed. The parts of the template around the placeholders, the context
-- and the bucket list are taken to hold no opening brace; the schema may.
pub build_system-laid_out :
    (a b c d schema : Text) (bc : BeaconContext)
    → Lacks brace a
    → Lacks brace b
    → Lacks brace c
    → Lacks brace d
    → Lacks brace (trim_space bc.context)
    → Lacks brace (trim_space (bucket_lines bc.buckets))
    → build_system
        (laid_out a b c d (codes "{{CONTEXT}}") (codes "{{BUCKETS}}") (codes "{{SCHEMA}}"))
        schema
        bc
      ≡ laid_out a b c d
          (trim_space bc.context)
          (trim_space (bucket_lines bc.buckets))
          (trim_space schema)
unfolding build_system
build_system-laid_out a b c d schema bc ha hb hc hd hx hy =
    let x = trim_space bc.context in
    let y = trim_space (bucket_lines bc.buckets) in
    let z = trim_space schema in
    let tx = codes "{CONTEXT}}" in
    let ty = codes "{BUCKETS}}" in
    let tz = codes "{SCHEMA}}" in
    let to = codes "{{SCHEMA}}" in
    let s1 = fill tx x a _ _ ha (
      pass tx x b (codes "{{BUCKETS}}") _ _ hb (pass_buckets x)
        (pass tx x c to d d hc (pass_schema x) (replace_all-end tx x d hd))) in
    let s2 = plain_then ty y a x _ _ ha hx (
      fill ty y b _ _ hb
        (pass ty y c to d d hc (pass_schema_buckets y) (replace_all-end ty y d hd))) in
    let s3 =
      plain_then tz z a x _ _ ha hx
        (plain_then tz z b y _ _ hb hy (fill tz z c d d hc (replace_all-end tz z d hd))) in
    rw (s1, s2) s3
